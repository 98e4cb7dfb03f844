-- ===== src/Http.antt =====
-- internal/controller/http: the handlers behind the routes. What gin and its binding read of a request
-- are arguments, and a response is its status, its message and its content.
pub mod JobController
pub mod UserController
pub mod AuthController
use arcana_cloud_go.Base.{ℕ, String, Bool, Option, none, some}
use arcana_cloud_go.Action.{Result, ok, err}
use arcana_cloud_go.Middleware.{Context, Passage, next, aborted}

pub record ApiResponse (A : Type 0) : Type 0 where
  pub status : ℕ
  pub message : String
  pub content : Option A

-- NewError and NewSuccess
abbrev pub failure : {A : Type 0} → ℕ → String → ApiResponse A
failure status message = record { status = status; message = message; content = none }

abbrev pub success : {A : Type 0} → ℕ → String → Option A → ApiResponse A
success status message content = record { status = status; message = message; content = content }

-- A response by the result of a service.
abbrev pub by_result :
    {E X A S : Type 0} → ApiResponse A → (X → ApiResponse A) → Result E X × S → ApiResponse A × S
by_result failed done (ok x, s) = (done x, s)
by_result failed done (err e, s) = (failed, s)

-- A handler behind the middleware that let the request through, or not.
abbrev pub behind :
    {A S : Type 0} → Passage → (Context → S → ApiResponse A × S) → S → ApiResponse A × S
behind (next c) handler s = handler c s
behind (aborted status message c) handler s = (failure status message, s)
