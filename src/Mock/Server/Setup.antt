-- ===== src/Mock/Server/Setup.antt =====
-- The setup helpers of internal/mock/server.go. An index past the table panics: `none`.
use otcat.Base.{
  ℕ, suc, ◌+◌, ◌-◌, ◌≤◌, ◌<◌, ◌≡◌, refl, ◌∙◌, Bool, Option, some, none, List, [], ◌∷◌, arith, ltb,
  leb, if◌then◌else◌, length, get_or, ◌&&◌,
}
use native.Mathlib.Decide.{dec_lt, ℕ_discrete}
use otcat.Mock.Server.{Server, update, table_len}

unfoldable pub set_holding : ℕ → ℕ → Server → Server
set_holding addr v s = record s { holding = update s.holding addr v }

unfoldable pub get_holding : ℕ → Server → ℕ
get_holding addr s = s.holding addr

unfoldable pub set_input : ℕ → ℕ → Server → Server
set_input addr v s = record s { input = update s.input addr v }

unfoldable pub set_coil : ℕ → Bool → Server → Server
set_coil addr v s = record s { coils = update s.coils addr v }

unfoldable pub get_coil : ℕ → Server → Bool
get_coil addr s = s.coils addr

unfoldable pub set_discrete : ℕ → Bool → Server → Server
set_discrete addr v s = record s { discrete = update s.discrete addr v }

unfoldable pub set_holding_range : ℕ → List ℕ → Server → Option Server
set_holding_range addr [] s = some s
set_holding_range addr (v ∷ vs) s =
    let rest = set_holding_range (addr + 1) vs (set_holding addr v s) in
    if ltb addr table_len then rest else none

range_step :
    (addr v : ℕ) (vs : List ℕ) (s : Server)
    → addr < table_len
    → set_holding_range addr (v ∷ vs) s ≡ set_holding_range (addr + 1) vs (set_holding addr v s)
unfolding set_holding_range
range_step addr v vs s h = ground (arith, h)

-- The cell at `j` once the first value is at `addr` and the others behind it.
cell_step :
    (addr v : ℕ) (vs : List ℕ) (s : Server) (j : ℕ)
    → (if leb (addr + 1) j && ltb j (addr + 1 + length vs)
        then get_or vs (j - (addr + 1)) 0
        else get_holding j (set_holding addr v s))
      ≡ (if leb addr j && ltb j (addr + length (v ∷ vs))
          then get_or (v ∷ vs) (j - addr) 0
          else get_holding j s)
unfolding get_holding set_holding
cell_step addr v vs s j = elim (dec_lt addr j) [
  | yes behind ↦ let e : j - addr ≡ suc (j - (addr + 1)) = omega arith in rw e (ground arith)
  | no early ↦ elim (ℕ_discrete addr j) [
    | yes e ↦ let z : j - addr ≡ 0 = omega arith in rw z (ground arith)
    | no ne ↦ ground arith
  ]
]

-- A range inside the table is stored value by value, and the cells outside it keep theirs.
pub get_holding-set_holding_range :
    (addr : ℕ) (vs : List ℕ) (s : Server) (j : ℕ)
    → addr + length vs ≤ table_len
    → (s' : Server) × (set_holding_range addr vs s ≡ some s')
      × (get_holding j s' ≡ (
          if leb addr j && ltb j (addr + length vs)
          then get_or vs (j - addr) 0
          else get_holding j s))
get_holding-set_holding_range addr [] s j h = (s, unfold set_holding_range in refl, ground arith)
get_holding-set_holding_range addr (v ∷ vs) s j h =
    let (s', stored, cell) =
      get_holding-set_holding_range (addr + 1) vs (set_holding addr v s) j (omega arith) in
    (s', range_step addr v vs s (omega arith) ∙ stored, cell ∙ cell_step addr v vs s j)
