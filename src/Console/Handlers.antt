-- ===== src/Console/Handlers.antt =====
-- internal/api/console.go: what the console's handlers share. Text is its bytes, and literal texts
-- are ASCII. Of the console's page, what it shows of the sessions is modelled.
pub mod Page
pub mod Execute
pub mod Export
mod Shown
mod Ran
pub mod Guarded
mod Egress
mod Handoff
mod Tests
use lynceus.Prelude.{
  ℕ, ◌+◌, ◌-◌, ◌/◌, ◌%◌, String, Bool, not, if◌then◌else◌, Option, none, some, List, [], ◌∷◌, ◌++◌,
  take, length, find, ltb, ◌==◌, bytes_eq,
}
use lynceus.Prelude.Slices.{drop}
use lynceus.Prelude.Int.{ℤ, pos, lez}
use lynceus.Prelude.Numerals.{parse_int}
use lynceus.Prelude.Result.{Result, ok, err}
use lynceus.Audit.Canonical.{Bytes}
use lynceus.Audit.Log.{AuditLog}
use lynceus.Console.{ConsoleResult}
use lynceus.Console.Sessions.{Run, Sessions}
use lynceus.UiScope.{parse}

-- The fields that the console reads.
pub record Cluster : Type 0 where
  pub id : Bytes
  pub name : Bytes

pub record Instance : Type 0 where
  pub id : Bytes
  pub name : Bytes

pub record ServerStream : Type 0 where
  pub server_id : Bytes
  pub database_name : Bytes
  pub t2_enabled : Bool

pub record Statement : Type 0 where
  pub cluster_id : Bytes
  pub cluster_name : Bytes
  pub node : Bytes
  pub database : Bytes
  pub server_id : Bytes
  pub sql : Bytes
  pub row_limit : ℕ
  pub timeout_secs : ℕ
  pub actor : Bytes

-- The config store, the grant reader and the executor by their answers, `strings.TrimSpace`, and the
-- writing of numbers: a float64 by its bit pattern.
pub record Server : Type 0 where
  pub list_clusters : Result (List Cluster)
  pub list_instances : (cluster : Bytes) → Result (List Instance)
  pub list_server_streams : (instance_id : Bytes) → Result (List ServerStream)
  pub get_visible_script : ℤ → Result (Option Bytes)
  pub active_grant : (cluster name actor : Bytes) → Result Bool
  pub execute : Statement → Result ConsoleResult
  pub trim_space : Bytes → Bytes
  pub float_text : ℕ → Bytes
  pub decimal : ℕ → Bytes

-- A missing parameter is empty.
pub record Request : Type 0 where
  pub scope : Bytes
  pub cluster : Bytes
  pub script : Bytes
  pub restore : Bytes
  pub node : Bytes
  pub db : Bytes
  pub sql : Bytes
  pub format : Bytes
  pub actor : Bytes

-- What the console's page has of the sessions, and the statement in its editor. Its chips, links and
-- labels are left out.
pub record ConsoleVm : Type 0 where
  pub granted : Bool
  pub result : Option Run
  pub history : List Run
  pub editor_sql : Bytes

pub data Response : Type 0 where
  not_found : Response
  missing : String → Response
  failed : String → Response
  forbidden : String → Response
  page : ConsoleVm → Response
  download : (content_type : String) (body : Bytes) → Response

-- What handlers change, with the statements that were executed, the latest first.
pub record ConsoleState : Type 0 where
  pub log : AuditLog
  pub sessions : Sessions
  pub executed : List Statement

abbrev pub console_row_limit : ℕ
console_row_limit = 500

abbrev pub console_timeout_secs : ℕ
console_timeout_secs = 5

abbrev pub hex_digit : ℕ → ℕ
hex_digit n = if ltb n 10 then 48 + n else 87 + n

abbrev pub hex_encode : Bytes → Bytes
hex_encode [] = []
hex_encode (b ∷ bs) = hex_digit (b / 16) ∷ hex_digit (b % 16) ∷ hex_encode bs

-- The character between the two parts takes three bytes.
abbrev pub shortened : Bytes → Bytes
shortened s = if ltb (length s) 7 then s else take 4 s ++ 226 ∷ 128 ∷ 166 ∷ drop (length s - 3) s

unfoldable pub short_hash : Bytes → Bytes
short_hash h = shortened (hex_encode h)

-- The first instance of the name that has the database.
abbrev pub or_next :
    Result (Option ServerStream) → Bytes → Result (List ServerStream) → Result (Option ServerStream)
or_next rest db (err x) = err x
or_next rest db (ok ss) = elim (find (λ st. st.database_name == db) ss) [
  | none ↦ rest
  | some st ↦ ok (some st)
]

abbrev pub in_instances : Server → Bytes → Bytes → List Instance → Result (Option ServerStream)
in_instances s node db [] = ok none
in_instances s node db (i ∷ is) =
    let rest = in_instances s node db is in
    if i.name == node then or_next rest db (s.list_server_streams i.id) else rest

abbrev pub resolve_in :
    Server → Bytes → Bytes → Result (List Instance) → Result (Option ServerStream)
resolve_in s node db (err x) = err x
resolve_in s node db (ok is) = in_instances s node db is

unfoldable pub resolve_console_target :
    Server → Bytes → Bytes → Bytes → Result (Option ServerStream)
resolve_console_target s cluster node db = resolve_in s node db (s.list_instances cluster)

abbrev pub name_or_empty : Option Cluster → Bytes
name_or_empty none = []
name_or_empty (some k) = k.name

abbrev pub cluster_name_of : Bytes → List Cluster → Bytes
cluster_name_of cluster ks = name_or_empty (find (λ k. k.id == cluster) ks)

-- By the scope, or else by the name.
unfoldable pub console_cluster_from_query : Request → List Cluster → Option Cluster
unfolding parse
console_cluster_from_query req ks =
    let cluster = (parse req.scope).cluster_id in
    if not (cluster == [])
    then find (λ k. k.id == cluster) ks
    else if not (req.cluster == [])
    then find (λ k. k.name == req.cluster) ks
    else none

abbrev pub visible_sql : Result (Option Bytes) → Bytes
visible_sql (err x) = []
visible_sql (ok none) = []
visible_sql (ok (some sql)) = sql

abbrev pub script_of : Server → Option ℤ → Bytes
script_of s none = []
script_of s (some id) = if lez id (pos 0) then [] else visible_sql (s.get_visible_script id)

-- No integer is read from the empty text.
unfoldable pub console_script_sql : Server → Bytes → Bytes
console_script_sql s id = if id == [] then [] else script_of s (parse_int id)
