-- ===== src/Startup/Boot.antt =====
-- The start of each service in its main: api/main.go and `open` of api/store.go,
-- keda/mcp-server/main.go, keda/websocket-gateway/main.go, agent/backend/main.go and
-- agent/mcp-server/main.go, up to the call of ListenAndServe. `getenv` is os.Getenv.
use take.Prelude.{ℕ, Bool, Option, none, some, [], ◌++◌, Text, codes, text_eq, if◌then◌else◌}
use take.Startup.Wait.{Pinged, Waited, wait}

-- log.Fatal of a text, at a time, or serving with what main hands on.
pub data Boot {ℓ} (A : Type ℓ) : Type ℓ where
  fatal : Text → Boot A
  serving : A → Boot A
  out_of_fuel : Boot A

module _ (getenv : Text → Text) where
  unfoldable pub env : Text → Text → Text
  env key fallback = let v = getenv key in if text_eq v [] then fallback else v

  -- The Addr of the http.Server.
  unfoldable pub port_addr : Text → Text
  unfolding env
  port_addr fallback = codes ":" ++ env (codes "PORT") fallback

-- The fields of mysql.Config that come from the environment.
pub record DbConfig : Type 0 where
  pub net : Text
  pub addr : Text
  pub user : Text
  pub passwd : Text
  pub db_name : Text
  pub collation : Text

unfoldable pub db_config : (Text → Text) → DbConfig
unfolding env
db_config getenv = record {
  net = codes "tcp";
  addr = env getenv (codes "DB_ADDR") (codes "mysql:3306");
  user = env getenv (codes "DB_USER") (codes "2take1");
  passwd = getenv (codes "DB_PASSWORD");
  db_name = env getenv (codes "DB_NAME") (codes "2take1");
  collation = codes "utf8mb4_unicode_ci";
}

-- waitReady of api/store.go under the boot context of 3 minutes.
unfoldable pub wait_database : (ℕ → Pinged) → (ℕ → Bool) → ℕ → Option Waited
unfolding wait
wait_database ping retry_first start = wait (codes "database") ping retry_first 180000 start

-- waitReady of the two services over Redis, under their boot contexts of 30 seconds.
unfoldable pub wait_redis : (ℕ → Pinged) → (ℕ → Bool) → ℕ → Option Waited
unfolding wait
wait_redis ping retry_first start = wait (codes "redis") ping retry_first 30000 start

-- What main does with the error of waitReady; `next` is the rest of main from a time on.
unfoldable pub after_wait : {A : Type 0} → Option Waited → (ℕ → Boot A) → Boot A
after_wait none next = out_of_fuel
after_wait (some w) next = elim w.error [ some err ↦ fatal err | none ↦ next w.finish ]

-- main of api, by the error of `open`, that of the schema by the time at which it is sent, and the
-- client. It hands on the address to listen at.
unfoldable pub boot_api :
    (Text → Text) → Option Text → (ℕ → Pinged) → (ℕ → Bool) → (ℕ → Option Text) → ℕ → Boot Text
unfolding wait_database after_wait port_addr
boot_api getenv (some err) ping retry_first apply_schema start =
    fatal (codes "configure database: " ++ err)
boot_api getenv none ping retry_first apply_schema start =
    after_wait (wait_database ping retry_first start) (λ now. elim (apply_schema now) [
      | some err ↦ fatal (codes "apply schema: " ++ err)
      | none ↦ serving (port_addr getenv (codes "8080"))
    ])

-- What the mains over Redis set up: the addresses of Redis and of the service they call, and their own.
pub record Peer : Type 0 where
  pub redis_addr : Text
  pub addr : Text
  pub url : Text

-- main of keda/mcp-server: the url is that of the API.
unfoldable pub boot_todo_server : (Text → Text) → (ℕ → Pinged) → (ℕ → Bool) → ℕ → Boot Peer
unfolding wait_redis after_wait env port_addr
boot_todo_server getenv ping retry_first start =
    after_wait (wait_redis ping retry_first start) (λ _. serving (record {
      redis_addr = env getenv (codes "REDIS_ADDR") (codes "redis:6379");
      addr = port_addr getenv (codes "8081");
      url = env getenv (codes "API_BASE_URL") (codes "http://api.2take1.svc.cluster.local:8080");
    }))

-- main of keda/websocket-gateway: the url is that of keda/mcp-server.
unfoldable pub boot_gateway : (Text → Text) → (ℕ → Pinged) → (ℕ → Bool) → ℕ → Boot Peer
unfolding wait_redis after_wait env port_addr
boot_gateway getenv ping retry_first start = after_wait (wait_redis ping retry_first start) (λ _.
    serving (record {
      redis_addr = env getenv (codes "REDIS_ADDR") (codes "redis:6379");
      addr = port_addr getenv (codes "8082");
      url = env getenv (codes "MCP_SERVER_URL") (codes "http://mcp-server:8081/mcp");
    }))

-- main of agent/backend, by the error of openStore at a path.
unfoldable pub boot_backend : (Text → Text) → (Text → Option Text) → Boot Text
unfolding env port_addr
boot_backend getenv open_store =
    elim (open_store (env getenv (codes "DB_PATH") (codes "/data/klyde.db"))) [
      | some err ↦ fatal (codes "open store: " ++ err)
      | none ↦ serving (port_addr getenv (codes "8080"))
    ]

-- main of agent/mcp-server: the address alone.
unfoldable pub listen_addr : (Text → Text) → Text
unfolding env
listen_addr getenv = env getenv (codes "LISTEN_ADDR") (codes ":8081")
