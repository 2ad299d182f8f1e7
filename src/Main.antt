-- ===== src/Main.antt =====
-- main.cpp: the port and the web root, from environment variables, which are `none` if they are not
-- set, and the page of the frontend. The metadata stand in Info, the threads in Server.
pub mod Info
pub mod Server
pub mod Live
pub mod Bind
mod Tests
use system_monitoring_dashbo.Prelude.{
  ℕ, ◌-◌, ◌^◌, ◌≤◌, ◌<◌, ◌≡◌, refl, ap, ◌∙◌, Bool, true, false, ◌&&◌, Option, none, some, List, [],
  ◌∷◌, ◌++◌, if◌then◌else◌, arith, inl, inr, Bool-cases,
}
use system_monitoring_dashbo.Prelude.Int.{ℤ, pos, negsuc, leb_ℤ, ltb_ℤ, pos_part, neg_part}
use system_monitoring_dashbo.Prelude.Text.{Text, codes, is_nil}
use system_monitoring_dashbo.Api.{Response}
use system_monitoring_dashbo.Api.Number.{is_nil-show_ℤ}
use system_monitoring_dashbo.Scan.{Scanned, no_digits, out_of_range, value, strto, show_ℤ}
use system_monitoring_dashbo.Scan.Digits.{strto-show_ℤ}

-- `kDefaultListenPort`
abbrev pub default_listen_port : ℤ
default_listen_port = pos 8080

-- What `std::stoi` returns, or the default if it throws or the port is out of range. It ignores text
-- behind the number.
unfoldable pub port_of : Scanned → ℤ
port_of no_digits = default_listen_port
port_of out_of_range = default_listen_port
port_of (value port rest) =
    if ltb_ℤ (pos 0) port && leb_ℤ port (pos 65535) then port else default_listen_port

unfoldable pub resolve_listen_port : Option Text → ℤ
unfolding port_of strto
resolve_listen_port none = default_listen_port
resolve_listen_port (some env) =
    if is_nil env then default_listen_port else port_of (strto (2 ^ 31) (2 ^ 31 - 1) env)

-- A port that can be listened on.
abbrev pub IsPort : ℤ → Type 0
IsPort port = (1 ≤ pos_part port) × (pos_part port ≤ 65535)

port_of-IsPort : (r : Scanned) → IsPort (port_of r)
unfolding port_of
port_of-IsPort no_digits = omega arith
port_of-IsPort out_of_range = omega arith
port_of-IsPort (value (pos n) rest) = ground arith
port_of-IsPort (value (negsuc n) rest) = ground arith

resolved-IsPort : (env : Option Text) → IsPort (resolve_listen_port env)
unfolding resolve_listen_port
resolved-IsPort none = omega arith
resolved-IsPort (some []) = omega arith
resolved-IsPort (some (c ∷ env)) = port_of-IsPort (strto (2 ^ 31) (2 ^ 31 - 1) (c ∷ env))

-- Whatever PORT holds, the port lies between 1 and 65535; and it is the one that PORT holds, if that is
-- such a port in decimal.
resolve_listen_port-IsPort :
    (env : Option Text) (port : ℤ)
    → ltb_ℤ (pos 0) port ≡ true
    → leb_ℤ port (pos 65535) ≡ true
    → IsPort (resolve_listen_port env) × (resolve_listen_port (some (show_ℤ port)) ≡ port)
unfolding resolve_listen_port port_of
resolve_listen_port-IsPort env port positive small =
    let read = strto-show_ℤ (2 ^ 31) (2 ^ 31 - 1) port (ground arith) (ground arith) in
    (
      resolved-IsPort env,
      rw (is_nil-show_ℤ port, resolve_listen_port) (ap port_of read ∙ rw (positive, small) refl),
    )

-- `std::string("web")` without WEB_ROOT
unfoldable pub resolve_web_root : Option Text → Text
resolve_web_root none = codes "web"
resolve_web_root (some env) = if is_nil env then codes "web" else env

-- GET /: the argument is the content of a file, `none` if it cannot be opened.
unfoldable pub serve_index : (Text → Option Text) → Text → Response
serve_index read_file web_root = elim (read_file (web_root ++ codes "/index.html")) [
  | none ↦ record { status = 404; content = []; content_type = []; headers = [] }
  | some body ↦ record {
    status = 200;
    content = body;
    content_type = codes "text/html; charset=UTF-8";
    headers = [];
  }
]
