-- ===== src/Restore/Names.antt =====
-- `sandbox_name` of app/services/restore_server.py: the name of a guest or helper in a sandbox.
use backup_sentinel.Prelude.{
  leb, nat_beq, if◌then◌else◌, ℕ, zero, suc, ◌-◌, Bool, true, false, ◌&&◌, ◌||◌,
}
use backup_sentinel.Prelude.Text.{lower}
use Prim.Native.Char.{Char, code}
use Prim.Native.String.{String, [], ◌∷◌, ◌++◌}
use text.Mathlib.Text.{◌==◌}

abbrev pub is_name_char : ℕ → Bool
is_name_char c = (leb b'a' c && leb c b'z') || (leb b'0' c && leb c b'9') || nat_beq c b'-'

-- `re.sub(r"[^a-z0-9-]+", "-", text)`, where the character before was replaced or not
unfoldable pub collapse : Bool → String → String
collapse in_run [] = []
collapse in_run (c ∷ s) =
    let kept = c ∷ collapse false s in
    let rest = collapse true s in
    if is_name_char (code c) then kept else if in_run then rest else "-" ++ rest

abbrev is_dash : Char → Bool
is_dash c = nat_beq (code c) b'-'

unfoldable pub strip_dashes_left : String → String
strip_dashes_left [] = []
strip_dashes_left (c ∷ s) = let rest = strip_dashes_left s in if is_dash c then rest else c ∷ s

unfoldable pub strip_dashes_right : String → String
strip_dashes_right [] = []
strip_dashes_right (c ∷ s) =
    let rest = strip_dashes_right s in if rest == "" && is_dash c then "" else c ∷ rest

-- `strip("-")`
unfoldable pub strip_dashes : String → String
unfolding strip_dashes_left strip_dashes_right
strip_dashes s = strip_dashes_left (strip_dashes_right s)

-- `s[:n]`
unfoldable pub first_chars : ℕ → String → String
first_chars zero s = []
first_chars (suc n) [] = []
first_chars (suc n) (c ∷ s) = c ∷ first_chars n s

abbrev pub or_restore : String → String
or_restore s = if s == "" then "restore" else s

-- `"-".join` of the parts that are not empty
abbrev joined : String → String → String
joined cluster vm = if cluster == "" then vm else if vm == "" then cluster else cluster ++ "-" ++ vm

unfoldable pub base_name : String → String → String
unfolding collapse strip_dashes
base_name cluster vm = or_restore (strip_dashes (collapse false (lower (joined cluster vm))))

-- `len`
unfoldable pub char_count : String → ℕ
char_count [] = 0
char_count (c ∷ s) = suc (char_count s)

-- `max(1, 63 - len(suffix) - 1)`
abbrev pub room_before : String → ℕ
room_before suffix = if leb 1 (63 - char_count suffix - 1) then 63 - char_count suffix - 1 else 1

abbrev pub with_suffix : String → String → String
with_suffix base suffix = if base == "" then suffix else base ++ "-" ++ suffix

unfoldable pub sandbox_name : String → String → String → String
unfolding base_name strip_dashes first_chars char_count
sandbox_name cluster vm suffix =
    let base = base_name cluster vm in
    if suffix == ""
    then or_restore (strip_dashes (first_chars 63 base))
    else with_suffix (strip_dashes (first_chars (room_before suffix) base)) suffix
