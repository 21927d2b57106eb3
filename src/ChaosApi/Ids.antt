-- ===== src/ChaosApi/Ids.antt =====
-- isValidReportID of services/api/internal/handlers/chaos.go: ^[a-z0-9-]+$, of 1 to 99 bytes.
use Prim.Native.Char.{Char, code}
use Prim.Native.String.{String, [], ◌∷◌, len}
use trace_runtime.Prelude.{ℕ, Bool, true, false, ◌&&◌, ◌||◌, leb, ltb, if◌then◌else◌, ◌≡◌, refl}

abbrev within : ℕ → ℕ → ℕ → Bool
within low n high = leb low n && leb n high

abbrev is_id_char : Char → Bool
is_id_char c = within 97 (code c) 122 || (within 48 (code c) 57 || within 45 (code c) 45)

unfoldable pub all_id_chars : String → Bool
all_id_chars [] = true
all_id_chars (c ∷ s) = if is_id_char c then all_id_chars s else false

unfoldable pub is_valid_report_id : String → Bool
unfolding all_id_chars
is_valid_report_id id = ltb 0 (len id) && (ltb (len id) 100 && all_id_chars id)

valid : is_valid_report_id "chaos-worker-crash-20260101-120000" ≡ true
unfolding is_valid_report_id
valid = refl

escaping : is_valid_report_id "../etc" ≡ false
unfolding is_valid_report_id
escaping = refl
