-- ===== src/AccountStatus/Laws.antt =====
-- internal/accountstatus/accountstatus.go: laws of reading, ordering and expiring a status.
use sendly.Common.{
  ℕ, String, true, not, ◌≡◌, ◌≤◌, refl, ◌⊎◌, inl, inr, Option, none, some, List, [], ◌∷◌, exists,
  ◌==◌, nat_eq, arith, Bool-cases,
}
use sendly.Models.{Time}
use sendly.AccountStatus.Text.{codes, same_codes}
use sendly.AccountStatus.Status.{
  Status, active, suspended, Capability, capability_eq, text_of, ordered, is_empty, normalized,
  parse_among, parse, rank, allows, restrictions, effective, status_eq,
}

-- What a status allows, every less restricted status allows.
pub allows-antitone :
    (s s' : Status) (c : Capability) → rank s ≤ rank s' → allows s' c ≡ true → allows s c ≡ true
allows-antitone s s' c le h = ground arith

-- `Restrictions` lists exactly the capabilities that `Allows` refuses.
pub restrictions-exact :
    (s : Status) (c : Capability) → exists (λ x. x == c) (restrictions s) ≡ not (allows s c)
restrictions-exact s c = ground arith

matched :
    (ss : List Status) (v : List ℕ)
    → (parse_among ss v ≡ suspended) ⊎ (same_codes (codes (text_of (parse_among ss v))) v ≡ true)
unfolding parse_among
matched [] v = inl refl
matched (s ∷ ss) v = elim (Bool-cases (same_codes (codes (text_of s)) v)) [
  | inl hit ↦ rw hit (inr hit)
  | inr miss ↦ rw miss (matched ss v)
]

-- A text is read as a status that is not suspended only if, without the space around it and in small
-- letters, it is the text of that status, or is empty and read as active.
pub parse-closed :
    (raw : String)
    → (parse raw ≡ suspended)
      ⊎ (same_codes (codes (text_of (parse raw))) (normalized raw) ≡ true)
      ⊎ ((parse raw ≡ active) × (is_empty (normalized raw) ≡ true))
unfolding parse
parse-closed raw = elim (Bool-cases (is_empty (normalized raw))) [
  | inl blank ↦ rw blank (inr (inr (refl, refl)))
  | inr word ↦
      rw word
        (elim (matched ordered (normalized raw)) [ inl s ↦ inl s | inr same ↦ inr (inl same) ])
]

-- `Effective` never restricts more than the status, and once it has lifted it, it stays lifted.
pub effective-lifts :
    (s : Status) (expires_at : Option Time) (now later : Time)
    → now ≤ later
    → (rank (effective s expires_at now) ≤ rank s)
      × (effective s expires_at now ≡ active → effective s expires_at later ≡ active)
effective-lifts s none now later le = ground arith
effective-lifts s (some e) now later le = ground arith
