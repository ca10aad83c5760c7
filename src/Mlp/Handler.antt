-- ===== src/Mlp/Handler.antt =====
-- internal/mlp/handler.go: ServeHTTP.
use vectorcore_gmlc.Base.{
  ℕ, suc, ◌^◌, Bool, Option, none, some, List, if◌then◌else◌, ltb, length, take,
}
use vectorcore_gmlc.Base.Text.{Text}
use vectorcore_gmlc.Domain.{Time}
use vectorcore_gmlc.Storage.Schema.{Db}
use vectorcore_gmlc.Service.{Env}
use vectorcore_gmlc.Mlp.{Library, Credentials}
use vectorcore_gmlc.Mlp.ResultCodes.{ResultCode}
use vectorcore_gmlc.Mlp.Positions.{Response, gem}
use vectorcore_gmlc.Mlp.Immediate.{Slir, Waits, Turn, handle_slir, handle_emelir}
use vectorcore_gmlc.Mlp.History.{Hlir, handle_hlir}

abbrev pub max_body_bytes : ℕ
max_body_bytes = 2 ^ 20

-- svcInit, of the services that the handler knows.
pub record SvcInit : Type 0 where
  pub hdr : Option Credentials
  pub slir : Option Slir
  pub eme_lir : Option Slir
  pub hlir : Option Hlir

-- A request of HTTP; `none` is a body whose reading fails.
pub record HttpRequest : Type 0 where
  pub is_post : Bool
  pub body : Option Text

-- io.ReadAll of the limited reader, and the test of the length.
unfoldable pub read_body : Option Text → Option Text
read_body none = none
read_body (some s) =
    let body = take (suc max_body_bytes) s in
    if ltb max_body_bytes (length body) then none else some body

abbrev pub decoded : (Text → Option SvcInit) → Option Text → Option SvcInit
decoded decode none = none
decoded decode (some body) = decode body

-- The service that a document asks for; every other one gets the General Error Message.
pub data Asked : Type 0 where
  standard emergency : Option Credentials → Slir → Asked
  historic : Option Credentials → Hlir → Asked
  unsupported : Asked

abbrev asked_hlir : Option Credentials → Option Hlir → Asked
asked_hlir header none = unsupported
asked_hlir header (some req) = historic header req

abbrev asked_emelir : Option Credentials → Option Slir → Option Hlir → Asked
asked_emelir header none h = asked_hlir header h
asked_emelir header (some req) h = emergency header req

abbrev asked_slir : Option Credentials → Option Slir → Option Slir → Option Hlir → Asked
asked_slir header none e h = asked_emelir header e h
asked_slir header (some req) e h = standard header req

-- The `switch`, of a document that was decoded.
abbrev pub asked_of : Option SvcInit → Asked
asked_of none = unsupported
asked_of (some env) = asked_slir env.hdr env.slir env.eme_lir env.hlir

unfoldable pub asked : (Text → Option SvcInit) → HttpRequest → Asked
unfolding read_body
asked decode r = if r.is_post then asked_of (decoded decode (read_body r.body)) else unsupported

-- The decoder of XML is a parameter. An answer that is not there waits for more turns of the poll loop.
abbrev pub serve :
    Library → Env → Waits → Text → Time → Db → List Turn → Asked → Option Response × Db
serve lib env w key now db turns (standard header req) =
    handle_slir lib env w header key req now db turns
serve lib env w key now db turns (emergency header req) =
    handle_emelir lib env w header key req now db turns
serve lib env w key now db turns (historic header req) =
    (some (handle_hlir lib env header req now db), db)
serve lib env w key now db turns unsupported = (some (gem ResultCode.service_not_supported), db)

unfoldable pub serve_http :
    Library
    → Env
    → Waits
    → (Text → Option SvcInit)
    → HttpRequest
    → Text
    → Time
    → Db
    → List Turn
    → Option Response × Db
unfolding asked
serve_http lib env w decode r key now db turns = serve lib env w key now db turns (asked decode r)
