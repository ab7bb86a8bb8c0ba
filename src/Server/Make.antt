-- ===== src/Server/Make.antt =====
-- pkg/server/server.go: New, ListenAndServe and Shutdown. What net/http does with an http.Server, and the
-- logger that is named after the calling package, are parameters.
use karydia.Common.{String, Option, none, some, ◌≡◌, refl}
use karydia.Common.Run.{Error, Result, ok, Run, returns, deref, ◌>>=◌}
use karydia.Webhook.{Webhook}
use karydia.Webhook.Serve.{HttpRequest, Wire}
use karydia.Server.{ResponseWriter, serve_http}

-- The types of loggers and of settings of TLS
pub record Types : Type 1 where
  pub logger : Type 0
  pub tls : Type 0

pub record Config (T : Types) : Type 0 where
  pub addr : String
  pub logger : Option T.logger
  pub tls_config : Option T.tls

-- http.Server: the handler answers a path and a request.
pub record HttpServer (T : Types) (Body : Type 0) : Type 0 where
  pub addr : String
  pub handler : String → HttpRequest Body → Run ResponseWriter
  pub tls_config : Option T.tls

pub record Server (T : Types) (Body : Type 0) : Type 0 where
  pub config : Config T
  pub logger : T.logger
  pub http_server : HttpServer T Body

abbrev pub logger_of : {L : Type 0} → L → Option L → L
logger_of package_logger none = package_logger
logger_of package_logger (some given) = given

module _ {T : Types} {Body : Type 0} (wire : Wire Body) (package_logger : T.logger) where
  -- New, with an http.Server whose handler is the middleware over the routes
  unfoldable pub new_server : Option (Config T) → Option Webhook → Run (Result (Server T Body))
  new_server config wh = deref config >>= λ c. returns (
      ok record {
        config = c;
        logger = logger_of package_logger c.logger;
        http_server = record {
          addr = c.addr;
          handler = serve_http wire wh;
          tls_config = c.tls_config;
        };
      })

  -- A configuration that is not nil gives a server, which answers as the middleware over the routes of the
  -- webhook, with the configuration's address and settings of TLS.
  new_server-serve_http :
      (c : Config T) (wh : Option Webhook)
      → (s : Server T Body) × (new_server (some c) wh ≡ returns (ok s))
        × (s.http_server.handler ≡ serve_http wire wh)
        × (s.http_server.addr ≡ c.addr)
        × (s.http_server.tls_config ≡ c.tls_config)
  unfolding new_server
  new_server-serve_http c wh = (_, refl, refl, refl, refl)

module _ {T : Types} {Body World : Type 0} where
  -- ListenAndServe, over the method of http.Server
  unfoldable pub listen_and_serve :
      (String → String → HttpServer T Body → World → World × Option Error)
      → Server T Body
      → World
      → World × Option Error
  listen_and_serve listen_and_serve_tls s = listen_and_serve_tls "" "" s.http_server

  -- Shutdown, likewise
  unfoldable pub shutdown :
      {Context : Type 0}
      → (Context → HttpServer T Body → World → World × Option Error)
      → Server T Body
      → Context
      → World
      → World × Option Error
  shutdown http_shutdown s ctx = http_shutdown ctx s.http_server
