-- ===== src/Client/DxiCli.antt =====
-- apps/clients/dxi_cli_client.py: the connections that a run opens and closes, and what its commands
-- give. How each call of the SSH library ends, each closing included, is a parameter. The arguments of
-- the connections are not modelled.
pub mod Closes
mod Tests
use integrated_backup_monito.Prelude.{
  String, Bool, true, false, ◌&&◌, Option, none, some, List, [], ◌∷◌, ◌++◌, ◌==◌, string_eq,
  nat_beq, if◌then◌else◌,
}
use integrated_backup_monito.Prelude.Int.{ℤ, pos, negsuc}
use integrated_backup_monito.Prelude.Dict.{Dict, insert}
use integrated_backup_monito.Prelude.Text.{is_empty, strip, has_infix}
use integrated_backup_monito.Value.{Fields, str, int, field, end}
use integrated_backup_monito.Parser.Common.{text_or}

-- What `exec_command` and the reading of its streams give, or the text of the exception.
pub data Ran : Type 0 where
  ran : ℤ → (output error : String) → Ran
  broke : String → Ran

pub data Step {ℓ} (A : Type ℓ) : Type ℓ where
  done : A → Step A
  raised : String → Step A

abbrev pub judged : String → String → String → ℤ → String × Option Fields
judged name output message exit_status =
    if (name == "service_tickets") && has_infix "No open tickets available" message
    then ("", none)
    else (output, some (field "exit_status" (int exit_status) (field "message" (str message) end)))

abbrev is_zero : ℤ → Bool
is_zero (pos n) = nat_beq n 0
is_zero (negsuc n) = false

-- `_run_command`
unfoldable pub run_command : String → Ran → Step (String × Option Fields)
unfolding strip has_infix
run_command name (broke text) = raised text
run_command name (ran exit_status output error) =
    if is_zero exit_status
    then done (output, none)
    else done (judged name output (text_or (strip error) (strip output)) exit_status)

pub record DxiCliResult : Type 0 where
  pub outputs : Dict String String
  pub errors : Dict String Fields

abbrev pub noted : String → String × Option Fields → DxiCliResult → DxiCliResult
noted name (output, none) r = record { outputs = insert name output r.outputs; errors = r.errors }
noted name (output, some error) r = record {
  outputs = insert name output r.outputs;
  errors = insert name error r.errors;
}

abbrev pub go_on :
    (DxiCliResult → Step DxiCliResult)
    → String
    → DxiCliResult
    → Step (String × Option Fields)
    → Step DxiCliResult
go_on rest name r (done outcome) = rest (noted name outcome r)
go_on rest name r (raised text) = raised text

module _ (execute : String → Ran) where
  -- The loop over `config.commands`
  unfoldable pub run_each : Dict String String → DxiCliResult → Step DxiCliResult
  unfolding run_command insert
  run_each [] r = done r
  run_each ((name, command) ∷ commands) r =
      go_on (run_each commands) name r (run_command name (execute command))

-- The connections: to the device, to the jump host, and the channel from there.
pub data Connection : Type 0 where
  device : Connection
  jump : Connection
  channel : Connection

pub data Event : Type 0 where
  opens : Connection → Event
  closes : Connection → Event
  fails_to_close : Connection → Event

-- How the calls before and after the commands end; none is a success, `some` the text of the exception.
-- The jump transport is active or not.
pub record Ssh : Type 0 where
  pub new_client : Option String
  pub new_jump_client : Option String
  pub jump_connect : Option String
  pub is_active : Bool
  pub open_channel : Option String
  pub connect : Option String
  pub close : Connection → Option String

-- What was opened, and how the block went.
abbrev pub attempted {ℓ} : {A : Type ℓ} → Option String → Step A → Step A
attempted none next = next
attempted (some text) next = raised text

abbrev pub active_or : Bool → Option String → Option String
active_or true text = text
active_or false text = some "SSH jump transport is not active"

-- The connections to the jump host: those that stand, and whether a call has raised.
unfoldable pub jump_path : (made joined through : Option String) → List Connection × Option String
jump_path (some text) joined through = ([], some text)
jump_path none (some text) through = (jump ∷ [], some text)
jump_path none none (some text) = (jump ∷ [], some text)
jump_path none none none = (jump ∷ channel ∷ [], none)

unfoldable pub open_jump : Ssh → List Connection × Option String
unfolding jump_path
open_jump ssh =
    jump_path ssh.new_jump_client ssh.jump_connect (active_or ssh.is_active ssh.open_channel)

-- Before `client.connect`, with or without a jump host.
unfoldable pub opened_path : Bool → Ssh → List Connection × Option String
unfolding open_jump
opened_path has_jump_host ssh = if has_jump_host then open_jump ssh else ([], none)

-- The `finally`: the device's client, then the channel and the jump host's client where they are set. A
-- closing that raises skips the ones after it.
abbrev pub to_close : List Connection → List Connection
to_close [] = device ∷ []
to_close (c ∷ []) = device ∷ c ∷ []
to_close (c ∷ d ∷ rest) = device ∷ d ∷ c ∷ []

abbrev pub closed_then :
    Connection → Option String → List Event × Option String → List Event × Option String
closed_then c none (events, failure) = (closes c ∷ events, failure)
closed_then c (some text) rest = (fails_to_close c ∷ [], some text)

abbrev pub closing : (Connection → Option String) → List Connection → List Event × Option String
closing close [] = ([], none)
closing close (c ∷ cs) = closed_then c (close c) (closing close cs)

-- An exception of the `finally` takes the place of what the block gives.
abbrev pub replaced {ℓ} : {A : Type ℓ} → Option String → Step A → Step A
replaced none result = result
replaced (some text) result = raised text

abbrev pub openings : List Connection → List Event
openings [] = []
openings (c ∷ cs) = opens c ∷ openings cs

abbrev pub with_path :
    List Connection × Option String
    → Option String
    → (Connection → Option String)
    → Step DxiCliResult
    → List Event × Step DxiCliResult
with_path (path, failure) connected close commands =
    let (events, broken) = closing close (to_close path) in
    (
      opens device ∷ (openings path ++ events),
      replaced broken (attempted failure (attempted connected commands)),
    )

-- What follows the device's client, if it can be made.
abbrev pub unless_failed :
    Option String → List Event × Step DxiCliResult → List Event × Step DxiCliResult
unless_failed (some text) run = ([], raised text)
unless_failed none run = run

-- `run_commands`: the connections in the order in which they are opened and closed, and its end.
unfoldable pub run_commands :
    Bool → Ssh → (String → Ran) → Dict String String → List Event × Step DxiCliResult
unfolding opened_path run_each
run_commands has_jump_host ssh execute commands = unless_failed ssh.new_client (
    with_path (opened_path has_jump_host ssh) ssh.connect ssh.close
      (run_each execute commands (record { outputs = []; errors = [] })))
