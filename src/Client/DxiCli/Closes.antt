-- ===== src/Client/DxiCli/Closes.antt =====
-- What a run of the DXi client leaves open.
use integrated_backup_monito.Prelude.{
  String, ◌≡◌, refl, Bool, true, false, ◌⊎◌, inl, inr, Option, none, some, List, [], ◌∷◌, ◌++◌,
  string_eq, if◌then◌else◌,
}
use integrated_backup_monito.Prelude.Dict.{Dict}
use integrated_backup_monito.Client.DxiCli.{
  jump_path, unless_failed, Ran, Step, DxiCliResult, run_each, Connection, device, jump, channel,
  Event, opens, closes, fails_to_close, Ssh, open_jump, opened_path, to_close, closed_then, closing,
  openings, active_or, replaced, attempted, with_path, run_commands, raised,
}

-- Following the events from the connections that are open, the latest first: a connection is opened
-- once, and only one that is open is closed. One that fails to close stays open.
abbrev pub same : Connection → Connection → Bool
same device device = true
same jump jump = true
same channel channel = true
same device jump = false
same device channel = false
same jump device = false
same jump channel = false
same channel device = false
same channel jump = false

abbrev pub is_open : Connection → List Connection → Bool
is_open c [] = false
is_open c (d ∷ open_) = if same c d then true else is_open c open_

abbrev pub closed : Connection → List Connection → List Connection
closed c [] = []
closed c (d ∷ open_) = if same c d then open_ else d ∷ closed c open_

abbrev pub follow : List Event → List Connection → Option (List Connection)
follow [] open_ = some open_
follow (opens c ∷ events) open_ =
    let next = follow events (c ∷ open_) in if is_open c open_ then none else next
follow (closes c ∷ events) open_ =
    let next = follow events (closed c open_) in if is_open c open_ then next else none
follow (fails_to_close c ∷ events) open_ =
    let next = follow events open_ in if is_open c open_ then next else none

-- The events open and close as they can, and nothing stays open unless the closing of a connection raised,
-- and then its exception is the run's.
abbrev Released : (Connection → Option String) → List Event → Option String → Type 0
Released close events broken =
    (left : List Connection) × (follow events [] ≡ some left)
    × ((left ≡ [])
        ⊎ ((c : Connection) × (text : String) × (close c ≡ some text) × (broken ≡ some text)))

module _ (close : Connection → Option String) where
  alone :
      (d : Option String)
      → close device ≡ d
      → (let made = closed_then device d ([], none) in
          Released close (opens device ∷ made.0) made.1)
  alone none e = ([], refl, inl refl)
  alone (some text) e = (device ∷ [], refl, inr (device, text, e, refl))

  with_jump :
      (d j : Option String)
      → close device ≡ d
      → close jump ≡ j
      → (let made = closed_then device d (closed_then jump j ([], none)) in
          Released close (opens device ∷ opens jump ∷ made.0) made.1)
  with_jump (some text) j e f = (jump ∷ device ∷ [], refl, inr (device, text, e, refl))
  with_jump none (some text) e f = (jump ∷ [], refl, inr (jump, text, f, refl))
  with_jump none none e f = ([], refl, inl refl)

  with_channel :
      (d c j : Option String)
      → close device ≡ d
      → close channel ≡ c
      → close jump ≡ j
      → (let made = closed_then device d (closed_then channel c (closed_then jump j ([], none))) in
          Released close (opens device ∷ opens jump ∷ opens channel ∷ made.0) made.1)
  with_channel (some text) c j e f g =
      (channel ∷ jump ∷ device ∷ [], refl, inr (device, text, e, refl))
  with_channel none (some text) j e f g = (channel ∷ jump ∷ [], refl, inr (channel, text, f, refl))
  with_channel none none (some text) e f g = (jump ∷ [], refl, inr (jump, text, g, refl))
  with_channel none none none e f g = ([], refl, inl refl)

  -- The path is empty, the jump host alone, or it and the channel.
  abbrev PathReleased : List Connection → Type 0
  PathReleased path =
      (let made = closing close (to_close path) in
        Released close (opens device ∷ (openings path ++ made.0)) made.1)

  jump_path-Released :
      (made joined through : Option String) → PathReleased (jump_path made joined through).0
  unfolding jump_path
  jump_path-Released (some text) joined through = alone (close device) refl
  jump_path-Released none (some text) through = with_jump (close device) (close jump) refl refl
  jump_path-Released none none (some text) = with_jump (close device) (close jump) refl refl
  jump_path-Released none none none =
      with_channel (close device) (close channel) (close jump) refl refl refl

  path-Released :
      (has_jump_host : Bool) (ssh : Ssh) → PathReleased (opened_path has_jump_host ssh).0
  unfolding opened_path open_jump
  path-Released true ssh =
      jump_path-Released ssh.new_jump_client ssh.jump_connect
        (active_or ssh.is_active ssh.open_channel)
  path-Released false ssh = alone (close device) refl

-- What a run of the client leaves.
abbrev pub IsRelease : Ssh → List Event × Step DxiCliResult → Type 0
IsRelease ssh (events, result) =
    (left : List Connection) × (follow events [] ≡ some left)
    × ((left ≡ [])
        ⊎ ((c : Connection) × (text : String) × (ssh.close c ≡ some text) × (result ≡ raised text)))

replaced-raised :
    (broken : Option String) (text : String) (result : Step DxiCliResult)
    → broken ≡ some text
    → replaced broken result ≡ raised text
replaced-raised broken text result e = rw e refl

with_path-IsRelease :
    (ssh : Ssh) (path : List Connection × Option String) (commands : Step DxiCliResult)
    → PathReleased ssh.close path.0
    → IsRelease ssh (with_path path ssh.connect ssh.close commands)
with_path-IsRelease ssh (path, failure) commands (left, followed, inl empty) =
    (left, followed, inl empty)
with_path-IsRelease ssh (path, failure) commands (left, followed, inr (c, text, e, f)) = (
  left,
  followed,
  inr (
    c,
    text,
    e,
    replaced-raised (closing ssh.close (to_close path)).1 text
        (attempted failure (attempted ssh.connect commands)) f,
  ),
)

unless_failed-IsRelease :
    (ssh : Ssh) (made : Option String) (run : List Event × Step DxiCliResult)
    → IsRelease ssh run
    → IsRelease ssh (unless_failed made run)
unless_failed-IsRelease ssh none run h = h
unless_failed-IsRelease ssh (some text) run h = ([], refl, inl refl)

-- Whatever calls of the SSH library fail, the closings included, and whatever commands fail, a run of the
-- DXi client opens no connection twice and closes only what is open, and it leaves nothing open, or
-- the closing of a connection raised an exception, and then the run ends with that exception.
pub run_commands-closes :
    (has_jump_host : Bool) (ssh : Ssh) (execute : String → Ran) (commands : Dict String String)
    → IsRelease ssh (run_commands has_jump_host ssh execute commands)
unfolding run_commands
run_commands-closes has_jump_host ssh execute commands =
    unless_failed-IsRelease ssh ssh.new_client
      (with_path (opened_path has_jump_host ssh) ssh.connect ssh.close
        (run_each execute commands (record { outputs = []; errors = [] })))
      (with_path-IsRelease ssh (opened_path has_jump_host ssh)
        (run_each execute commands (record { outputs = []; errors = [] }))
        (path-Released ssh.close has_jump_host ssh))
