-- ===== src/Views/Capacity.antt =====
-- The handler of services/api/internal/http/capacity.go. The directory is a list of entries with what reading them gives;
-- the order of names is given, and so is which texts are JSON.
use Prim.Native.String as Text
use text.Mathlib.Text.{starts_with}
use trace_runtime.Prelude.{
  ◌≡◌, refl, ℕ, String, Bool, true, false, not, ◌&&◌, Option, none, some, List, [], ◌∷◌, ◌==◌,
  if◌then◌else◌, select,
}

-- `content` is none if reading fails.
pub record Entry : Type 0 where
  pub name : String
  pub is_dir : Bool
  pub content : Option String

pub data CapacityReply : Type 0 where
  report : String → CapacityReply
  error : ℕ → CapacityReply

-- strings.HasSuffix
abbrev ends_with : String → String → Bool
ends_with Text.[] end = "" == end
ends_with (Text.◌∷◌ c s) end = if Text.◌∷◌ c s == end then true else ends_with s end

abbrev is_report : Entry → Bool
is_report e = not e.is_dir && starts_with e.name "loadtest-" && ends_with e.name ".json"

module _ (before : String → String → Bool) (is_json : String → Bool) where
  -- The last name in the order.
  abbrev latest : Entry → List Entry → Entry
  latest e [] = e
  latest e (d ∷ es) = latest (if before e.name d.name then d else e) es

  abbrev reply : Option String → CapacityReply
  reply none = error 500
  reply (some text) = if is_json text then report text else error 500

  abbrev of_reports : List Entry → CapacityReply
  of_reports [] = error 404
  of_reports (e ∷ es) = reply (latest e es).content

  -- The entries of the directory, if it can be read.
  unfoldable pub latest_capacity : Option (List Entry) → CapacityReply
  latest_capacity none = error 404
  latest_capacity (some entries) = of_reports (select is_report entries)

-- The newest report is served, and what is no report is passed over.
abbrev files : List Entry
files =
    record { name = "loadtest-2.json"; is_dir = false; content = some "{}" }
    ∷ record { name = "loadtest-3.txt"; is_dir = false; content = some "" }
    ∷ record { name = "loadtest-1.json"; is_dir = false; content = none }
    ∷ []

newest : latest_capacity (λ a b. a == "loadtest-1.json") (λ _. true) (some files) ≡ report "{}"
unfolding latest_capacity
newest = refl
