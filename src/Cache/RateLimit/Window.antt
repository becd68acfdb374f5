-- ===== src/Cache/RateLimit/Window.antt =====
-- Lists of accepted requests, last first, and how many of them a window holds.
use mygo_microservices.Prelude.{
  ℕ, suc, ◌+◌, ◌≤◌, String, ◌≡◌, refl, false, List, [], ◌∷◌, arith, ltb, leb, ◌&&◌, ◌==◌,
  if◌then◌else◌, length,
}

-- The entries that are still in the window at `now`.
unfoldable pub recent : ℕ → ℕ → List (ℕ × String) → List (ℕ × String)
recent window now [] = []
recent window now ((score, m) ∷ es) =
    let rest = recent window now es in if ltb now (score + window) then (score, m) ∷ rest else rest

-- How many entries lie in the window that ends at `t`: after `t - window`, and not after `t`.
unfoldable pub count_in : ℕ → ℕ → List (ℕ × String) → ℕ
count_in window t [] = 0
count_in window t ((score, m) ∷ es) =
    let rest = count_in window t es in
    if leb score t && ltb t (score + window) then suc rest else rest

-- When an entry was added, the window that it closes held at most `limit`.
abbrev pub Admitted : ℕ → ℕ → List (ℕ × String) → Type 0
Admitted window limit [] = Unit
Admitted window limit ((score, m) ∷ es) =
    (length (recent window score ((score, m) ∷ es)) ≤ limit) × Admitted window limit es

abbrev pub Absent : String → List (ℕ × String) → Type 0
Absent m [] = Unit
Absent m ((score, k) ∷ es) = ((k == m) ≡ false) × Absent m es

pub recent-recent :
    (window u now : ℕ) (es : List (ℕ × String))
    → u ≤ now
    → recent window now (recent window u es) ≡ recent window now es
unfolding recent
recent-recent window u now [] h = refl
recent-recent window u now ((score, m) ∷ es) h = ground (arith, recent-recent window u now es h)

pub Absent-recent :
    (m : String) (window now : ℕ) (es : List (ℕ × String))
    → Absent m es
    → Absent m (recent window now es)
unfolding recent
Absent-recent m window now [] h = tt
Absent-recent m window now ((score, k) ∷ es) h = ground (arith, Absent-recent m window now es h.1)

count_in-le-recent :
    (window t u : ℕ) (es : List (ℕ × String))
    → u ≤ t
    → count_in window t es ≤ length (recent window u es)
unfolding count_in recent
count_in-le-recent window t u [] h = omega arith
count_in-le-recent window t u ((score, m) ∷ es) h =
    ground (arith, count_in-le-recent window t u es h)

-- If every entry was admitted when it was added, no window at all holds more than `limit`.
pub count_in-le :
    (window limit t : ℕ) (es : List (ℕ × String))
    → Admitted window limit es
    → count_in window t es ≤ limit
unfolding count_in recent
count_in-le window limit t [] h = omega arith
count_in-le window limit t ((score, m) ∷ es) h =
    ground (arith, count_in-le window limit t es h.1, count_in-le-recent window t score es)
