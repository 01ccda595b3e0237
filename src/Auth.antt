-- ===== src/Auth.antt =====
-- The package auth/core: how a request is authenticated and which session it belongs to.
pub mod Multi
pub mod Middleware
mod Tests
use developer_gateway.Prelude.{ℕ, Option, List, String, ◌⊎◌}

-- What the package uses of `*http.Request` and of its context: the header of the session key, the
-- value of `AAD`, that of `Session`, and the authenticator that a `MultiAuth` has left there, by its
-- place in the list.
pub record HttpRequest : Type 0 where
  pub session_header : String
  pub aad : Option String
  pub session : Option String
  pub authenticator : Option ℕ

pub record AuthRequest : Type 0 where
  pub api : String
  pub address : String
  pub aad_bytes : List ℕ
  pub pk : List ℕ
  pub payload : String

-- The interface `Auth`. An error is known by its text.
pub record Auth : Type 0 where
  pub authenticate : HttpRequest → HttpRequest ⊎ String
  pub verify : HttpRequest → AuthRequest → Option String
