-- ===== src/Server/Handlers/HandlerError.antt =====
-- pkg/protocol/errors.go: the errors that a handler answers with. The code of each is a negative
-- number of the protocol; `code` gives its absolute value.
use xyncra_server.Common.{ℕ, String}
use xyncra_server.Fault.{Fault}

pub data HandlerError : Type 0 where
  validation not_found permission_denied : String → HandlerError
  internal : Fault → HandlerError

pub code : HandlerError → ℕ
code (validation _) = 100
code (not_found _) = 101
code (permission_denied _) = 200
code (internal _) = 300
