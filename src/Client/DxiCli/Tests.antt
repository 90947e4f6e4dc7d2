-- ===== src/Client/DxiCli/Tests.antt =====
-- The law of the connections, applied to a jump host that opens no channel.
use integrated_backup_monito.Prelude.{String, ◌≡◌, true, Option, none, some, refl, [], ◌∷◌}
use integrated_backup_monito.Prelude.Int.{pos}
use integrated_backup_monito.Client.DxiCli.{
  Ssh, Ran, ran, run_commands, Connection, device, jump, channel, opened_path, open_jump, jump_path,
}
use integrated_backup_monito.Client.DxiCli.Closes.{follow, IsRelease, run_commands-closes}

abbrev no_channel : Ssh
no_channel = record {
  new_client = none;
  new_jump_client = none;
  jump_connect = none;
  is_active = true;
  open_channel = some "ChannelException";
  connect = none;
  close = λ c. none;
}

abbrev prints : String → Ran
prints command = ran (pos 0) command ""

run_commands-closes_example :
    IsRelease no_channel
      (run_commands true no_channel prints (("dedup", "syscli --get dedup") ∷ []))
run_commands-closes_example =
    run_commands-closes true no_channel prints (("dedup", "syscli --get dedup") ∷ [])

-- A device whose closing raises leaves the channel and the jump host open.
abbrev close_fails : Connection → Option String
close_fails device = some "EOFError"
close_fails _ = none

abbrev stuck : Ssh
stuck = record no_channel { open_channel = none; close = close_fails }

all_stay : follow (run_commands true stuck prints []).0 [] ≡ some (channel ∷ jump ∷ device ∷ [])
unfolding run_commands opened_path open_jump jump_path
all_stay = refl
