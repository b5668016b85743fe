-- ===== src/Deployments.antt =====
-- The sample deployments/d.go: an HTTP service of user names in front of a gRPC service, each a
-- program of its own, by the file names in its comments. The file holds both and does not compile
-- as it stands: it declares main and a variable twice, and `getUsernamesHandler` reads a variable
-- `grpcPort` that is not in its scope, which is an argument here.
pub mod Laws
use openim_project_template.Base.{
  ℕ, String, ◌<>◌, ◌==◌, ◌||◌, not, string_eq, if◌then◌else◌, Option, none, some, List, [], ◌∷◌,
  ◌++◌, Res, ok, err, panics,
}
use openim_project_template.Errors.{Error}

-- `os.Getenv`
abbrev pub Env : Type 0
Env = String → String

-- The address that `main` of the HTTP service computes.
unfoldable pub grpc_address : Env → String
grpc_address getenv =
    if getenv "DEPLOYMENT_TYPE" == "kubernetes"
    then "grpc-service:" <> getenv "GRPC_PORT"
    else "localhost:" <> getenv "GRPC_PORT"

-- The URI that `main` of the gRPC service computes.
unfoldable pub mongo_uri : Env → String
mongo_uri getenv =
    if getenv "DEPLOYMENT_TYPE" == "kubernetes"
    then "mongodb://"
      <> getenv "MONGO_USER"
      <> ":"
      <> getenv "MONGO_PASSWORD"
      <> "@mongo-service:27017"
    else "mongodb://localhost:27017"

-- The port that it listens on.
unfoldable pub listen_port : Env → String
listen_port getenv =
    if not (getenv "DEPLOYMENT_TYPE" == "kubernetes") || getenv "GRPC_PORT" == ""
    then "50051"
    else getenv "GRPC_PORT"

-- How `main` of the gRPC service ends.
pub data Ending : Type 0 where
  -- `panic(err)`
  panicked : Error → Ending
  -- `log.Fatalf(message, err)`
  fatal : String → Error → Ending
  returned : Ending

-- What its libraries answer.
pub record World : Type 0 where
  -- `mongo.NewClient`, by the URI
  pub new_client : String → Option Error
  -- `client.Connect(ctx)`
  pub connect : Option Error
  -- `net.Listen("tcp", address)`
  pub listen : String → Option Error
  -- `s.Serve(listener)`, when it ends
  pub serve : Option Error

abbrev served : Option Error → Ending
served (some e) = fatal "failed to serve" e
served none = returned

abbrev listened : World → Option Error → Ending
listened w (some e) = fatal "failed to listen" e
listened w none = served w.serve

abbrev connected : Env → World → Option Error → Ending
connected getenv w (some e) = panicked e
connected getenv w none = listened w (w.listen (":" <> listen_port getenv))

abbrev made_client : Env → World → Option Error → Ending
made_client getenv w (some e) = panicked e
made_client getenv w none = connected getenv w w.connect

-- `main` of the gRPC service
unfoldable pub server_main : Env → World → Ending
server_main getenv w = made_client getenv w (w.new_client (mongo_uri getenv))

-- The collection of the gRPC service.
pub record Users : Type 1 where
  pub State : Type 0
  -- `InsertOne(ctx, User{Username: name})`
  pub insert_one : String → State → Option Error × State
  -- `Find(ctx, mongo.D{})`: an error, or what `Decode` answers for each document of the cursor
  pub find : State → Res (List (Res String))

abbrev of_error : Option Error → Res (Unit {0})
of_error none = ok tt
of_error (some e) = err e

-- The loop over the cursor.
unfoldable pub read_all : List (Res String) → List String → Res (List String)
read_all [] users = ok users
read_all (ok name ∷ docs) users = read_all docs (users ++ name ∷ [])
read_all (err e ∷ docs) users = err e
read_all (panics ∷ docs) users = panics

module _ (U : Users) where
  -- `(*server).SetUser`
  unfoldable pub set_user : String → U.State → Res (Unit {0}) × U.State
  set_user name s = (of_error (U.insert_one name s).0, (U.insert_one name s).1)

  abbrev from_cursor : Res (List (Res String)) → Res (List String)
  from_cursor (ok docs) = read_all docs []
  from_cursor (err e) = err e
  from_cursor panics = panics

  -- `(*server).GetUsers`
  unfoldable pub get_users : U.State → Res (List String)
  unfolding read_all
  get_users s = from_cursor (U.find s)

-- What the HTTP service writes: a status with an error, a message, or the users and the
-- configuration's version.
pub data Reply : Type 0 where
  error message : ℕ → String → Reply
  users : ℕ → List String → (version : String) → Reply

-- `dial` is `grpc.Dial`; `bound` is what `ShouldBindJSON` reads. The stub is that of the service.
module _ (U : Users) (dial : String → Option Error) where
  abbrev saved : Res (Unit {0}) → Reply
  saved (ok u) = message 200 "User saved successfully"
  saved (err e) = error 500 "Failed to save user"
  saved panics = error 500 "Failed to save user"

  abbrev save_over : Option Error → String → U.State → Reply × U.State
  save_over (some e) name s = (error 500 "Failed to connect to gRPC server", s)
  save_over none name s = (saved (set_user U name s).0, (set_user U name s).1)

  -- `setUsernameHandler`
  unfoldable pub set_username_handler :
      Option String → (address : String) → U.State → Reply × U.State
  set_username_handler none address s = (error 400 "Invalid request", s)
  set_username_handler (some name) address s = save_over (dial address) name s

  abbrev listed : String → Res (List String) → Reply
  listed version (ok names) = users 200 names version
  listed version (err e) = error 500 "Failed to get users"
  listed version panics = error 500 "Failed to get users"

  abbrev list_over : Option Error → String → U.State → Reply
  list_over (some e) version s = error 500 "Failed to connect to gRPC server"
  list_over none version s = listed version (get_users U s)

  -- `getUsernamesHandler`; the address that it is given is overwritten.
  unfoldable pub get_usernames_handler :
      (grpc_port version : String) → (address : String) → U.State → Reply
  get_usernames_handler grpc_port version address s =
      list_over (dial ("grpc-service:" <> grpc_port)) version s

-- A route of the HTTP service: which handler gets a request, and the address that it passes on.
pub data Route : Type 0 where
  set_username : (address : String) → Route
  get_usernames : (address : String) → Route

-- The routes of `main` of the HTTP service, by method and path; it listens on port 8080.
unfoldable pub routes : Env → List ((String × String) × Route)
routes getenv =
    (("POST", "/set_username"), set_username (grpc_address getenv))
    ∷ (("GET", "/get_usernames"), get_usernames (grpc_address getenv))
    ∷ []
