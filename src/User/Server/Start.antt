-- ===== src/User/Server/Start.antt =====
-- `Start` of internal/rpc/user/user.go with `NewUserMongo` of
-- pkg/common/storage/database/mgo/user.go: the connection, the index, and the registration of the
-- handlers. What connects is the record `Driver`.
use openim_project_template.Base.{
  String, ◌≡◌, ◌↔◌, refl, Bool, true, Option, none, some, Res, ok, err, bind_res, arith, Res-cases,
  inl, inr, ap, ◌∙◌, sym,
}
use openim_project_template.Errors.{Error, wrap}
use openim_project_template.Config.Settings.{Mongo, MongoConfig, build_mongo}

pub record Driver : Type 1 where
  pub Database : Type 0
  -- `mongoutil.NewMongoDB(ctx, config)`
  pub new_mongo_db : MongoConfig → Res Database
  -- `Indexes().CreateOne` on the collection of the name, by the key and whether it is unique
  pub create_index : Database → (collection key : String) → (unique : Bool) → Option Error

-- `UserMgo`, by its collection.
pub record UserMgo (M : Driver) : Type 0 where
  pub db : M.Database
  pub coll : String

module _ (M : Driver) where
  abbrev indexed : M.Database → Option Error → Res (UserMgo M)
  indexed db none = ok (record { db = db; coll = "user" })
  indexed db (some e) = err (wrap e)

  -- `NewUserMongo`
  unfoldable pub new_user_mongo : M.Database → Res (UserMgo M)
  new_user_mongo db = indexed db (M.create_index db "user" "user_id" true)

  -- `Start`; the handlers are registered over the storage that is answered.
  unfoldable pub start : Mongo → Res (UserMgo M)
  unfolding new_user_mongo build_mongo
  start config = bind_res (M.new_mongo_db (build_mongo config)) λ db. new_user_mongo db

  made_of_ok :
      (db : M.Database) (o : Option Error) (u : UserMgo M)
      → indexed db o ≡ ok u
      → (o ≡ none) × (db ≡ u.db) × (u.coll ≡ "user")
  made_of_ok db none u h = (refl, ground arith, ground arith)
  made_of_ok db (some e) u h = absurd (ground arith)

  -- The handlers of the user service are registered exactly if the connection is made from the
  -- configuration and the unique index on user_id is created, and over the collection that has
  -- it.
  pub start-ok_iff_indexed :
      (config : Mongo) (u : UserMgo M)
      → (start config ≡ ok u) ↔ (
          (M.new_mongo_db (build_mongo config) ≡ ok u.db)
          × (u.coll ≡ "user")
          × (M.create_index u.db u.coll "user_id" true ≡ none))
  unfolding start
  start-ok_iff_indexed config u = (
    λ h. elim (Res-cases (M.new_mongo_db (build_mongo config))) [
      | inl (db, e) ↦
          let (made, same, coll) =
            made_of_ok db (M.create_index db "user" "user_id" true) u (rw e at h) in
          (e ∙ ap ok same, coll, rw (coll, ← same) made)
      | inr (inl (e, failed)) ↦ absurd (ground (arith, failed))
      | inr (inr panicked) ↦ absurd (ground (arith, panicked))
    ],
    λ (connected, coll, made).
        rw (connected, rw coll at made) (ap (λ c. ok (record { db = u.db; coll = c })) (sym coll)),
  )
