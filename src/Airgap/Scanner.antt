-- ===== src/Airgap/Scanner.antt =====
-- src/airgap/scanner.ts: one camera, two wires. Each text goes to the collector of its format.
pub mod Routing
mod Runs
use labyrinth_vault.Prelude.{
  ℕ, ◌&&◌, ◌||◌, not, Bool, true, false, List, [], ◌∷◌, Option, none, some, ◌==◌, if◌then◌else◌,
  ◌>>=◌, Text, codes, trim, is_digit,
}
use labyrinth_vault.Airgap.Envelope.{
  PayloadKind, Problem, Progress, Collector, fresh, strip, field, is_plus,
}
use labyrinth_vault.Airgap.Envelope
use labyrinth_vault.Airgap.Ur.{ur_payload_bytes}
use labyrinth_vault.Airgap.Ur.Collector.{UrCollector, UrProblem, UrProgress, empty}
use labyrinth_vault.Airgap.Ur.Collector

pub data WireFormat : Type 0 where
  labyrinth ur : WireFormat

-- A payload kind of the own wire, or a UR type.
pub data ScanKind : Type 0 where
  payload_kind : PayloadKind → ScanKind
  ur_type : Text → ScanKind

-- The texts of the source: its own two, and those of the two collectors.
pub data ScanProblem : Type 0 where
  unknown_code : ScanProblem
  unreadable : Text → ScanProblem
  own_problem : Problem → ScanProblem
  ur_problem : UrProblem → ScanProblem

pub record ScanProgress : Type 0 where
  pub format : Option WireFormat
  pub have : ℕ
  pub total : ℕ
  pub payload : Option (List ℕ)
  pub kind : Option ScanKind
  pub problem : Option ScanProblem

abbrev has_value {ℓ} : {A : Type ℓ} → Option A → Bool
has_value none = false
has_value (some a) = true

-- `/^LV\d+:/`
pub is_labyrinth : Text → Bool
is_labyrinth raw = has_value (strip (codes "LV") raw >>= field is_digit is_plus)

-- `/^ur:/i`
pub is_ur : Text → Bool
is_ur (a ∷ b ∷ c ∷ s) = (a == b'u' || a == b'U') && (b == b'r' || b == b'R') && c == b':'
is_ur _ = false

unfoldable pub format_of : Text → Option WireFormat
unfolding is_labyrinth is_ur
format_of text =
    let raw = trim text in
    if is_labyrinth raw then some labyrinth else if is_ur raw then some ur else none

pub record Scanner : Type 0 where
  pub own : Collector
  pub ur : UrCollector

abbrev pub new_scanner : Scanner
new_scanner = record { own = fresh; ur = empty }

-- `reset`
unfoldable pub reset : Scanner → Scanner
reset s = record { own = fresh; ur = empty }

map_problem {ℓ κ} : {A : Type ℓ} {B : Type κ} → (A → B) → Option A → Option B
map_problem f none = none
map_problem f (some a) = some (f a)

-- What is reported of a text for the own wire.
own_progress : Progress → ScanProgress
unfolding map_problem
own_progress p = record {
  format = some labyrinth;
  have = p.have;
  total = p.total;
  payload = p.payload;
  kind = if has_value p.payload then some (payload_kind p.kind) else none;
  problem = map_problem own_problem p.problem;
}

-- What is reported of a UR, whose payload is unwrapped.
ur_progress : UrProgress → ScanProgress
unfolding map_problem
ur_progress p =
    let payload = p.cbor >>= ur_payload_bytes in
    record {
      format = some ur;
      have = p.have;
      total = p.total;
      payload = payload;
      kind = if has_value p.cbor then some (ur_type p.type) else none;
      problem =
          if has_value p.cbor && not (has_value payload)
          then some (unreadable p.type)
          else map_problem ur_problem p.problem;
    }

unknown : ScanProgress
unknown = record {
  format = none;
  have = 0;
  total = 0;
  payload = none;
  kind = none;
  problem = some unknown_code;
}

module _ (choose : ℕ → ℕ → ℕ → List ℕ) where
  -- `offer`, where `none` is an exception of the UR collector.
  unfoldable pub offer : Scanner → Text → Option (Scanner × ScanProgress)
  unfolding own_progress ur_progress unknown map_problem
  offer s text = elim (format_of text) [
    | none ↦ some (s, unknown)
    | some labyrinth ↦
        let (own, progress) = Envelope.offer s.own text in
        some (record s { own = own }, own_progress progress)
    | some ur ↦ do
      (c, progress) ← Collector.offer choose s.ur text
      some (record s { ur = c }, ur_progress progress)
  ]
