-- ===== src/Internal/SecretSink/Newer.antt =====
-- internal/secret_sink.go: the pairs that were used since a time, and pairs that an erase leaves.
use hotload.Prelude.{
  ℕ, suc, ◌<◌, ◌≤◌, ◌≡◌, refl, inl, inr, String, List, [], ◌∷◌, insert, erase, length, leb, All, In,
  arith, Bool-cases, str_eq, eq_iff, if◌then◌else◌, subst, sym,
}
use hotload.Internal.SecretSink.{RandomSecretData}

-- How many pairs were last used at a time or after it.
pub newer : ℕ → List (String × RandomSecretData) → ℕ
newer time [] = 0
newer time (e ∷ m) = let n = newer time m in if leb time e.1.last_used_time then suc n else n

pub newer-erase :
    (time : ℕ) (k : String) (m : List (String × RandomSecretData))
    → newer time (erase k m) ≤ newer time m
unfolding newer erase
newer-erase time k [] = ground arith
newer-erase time k (e ∷ m) = ground (arith, newer-erase time k m)

pub newer-none :
    (time : ℕ) (m : List (String × RandomSecretData))
    → All (λ e. e.1.last_used_time < time) m
    → newer time m ≡ 0
unfolding newer
newer-none time [] h = refl
newer-none time (e ∷ m) h = ground (arith, h.0, newer-none time m h.1)

pub newer-all :
    (time : ℕ) (m : List (String × RandomSecretData))
    → All (λ e. time ≤ e.1.last_used_time) m
    → newer time m ≡ length m
unfolding newer
newer-all time [] h = refl
newer-all time (e ∷ m) h = ground (arith, h.0, newer-all time m h.1)

pub newer-insert :
    (time : ℕ) (k : String) (d : RandomSecretData) (m : List (String × RandomSecretData))
    → newer time (insert k d m) ≤ suc (newer time m)
unfolding newer insert
newer-insert time k d m = ground (arith, newer-erase time k m)

pub erase-All :
    (P : String × RandomSecretData → Type 0) (k : String) (m : List (String × RandomSecretData))
    → All P m
    → All P (erase k m)
unfolding erase
erase-All P k [] h = h
erase-All P k (e ∷ m) h = elim (Bool-cases (str_eq e.0 k)) [
  | inl b ↦ rw b (erase-All P k m h.1)
  | inr b ↦ rw b (h.0, erase-All P k m h.1)
]

pub erased-All :
    (P : RandomSecretData → Type 0) (k : String) (m : List (String × RandomSecretData))
    → All (λ e. e.0 ≡ k → P e.1) (erase k m)
unfolding erase
erased-All P k [] = tt
erased-All P k (e ∷ m) = elim (Bool-cases (str_eq e.0 k)) [
  | inl b ↦ rw b (erased-All P k m)
  | inr b ↦ rw b ((λ q. absurd (ground (arith, eq_iff e.0 k, b, q))), erased-All P k m)
]

pub All-In :
    (P : String × RandomSecretData → Type 0) (x : String × RandomSecretData)
    (m : List (String × RandomSecretData))
    → All P m
    → In x m
    → P x
All-In P x [] h i = elim i [ ]
All-In P x (e ∷ m) h (inl q) = subst P (sym q) h.0
All-In P x (e ∷ m) h (inr i) = All-In P x m h.1 i

pub All-weaken :
    (P Q : String × RandomSecretData → Type 0) (m : List (String × RandomSecretData))
    → ((e : String × RandomSecretData) → P e → Q e)
    → All P m
    → All Q m
All-weaken P Q [] f h = h
All-weaken P Q (e ∷ m) f h = (f e h.0, All-weaken P Q m f h.1)
