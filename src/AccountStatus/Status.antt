-- ===== src/AccountStatus/Status.antt =====
-- The statuses in their order, the capabilities, and the expiry of a status.
use sendly.Common.{
  ℕ, suc, ◌-◌, String, Bool, true, false, not, ◌==◌, nat_eq, ltb, leb, Option, none, some, List, [],
  ◌∷◌, if◌then◌else◌, length, nat_beq, Eq, arith, ◌≡◌, ◌↔◌,
}
use sendly.Models.{Time}
use sendly.AccountStatus.Text.{codes, trim_space, to_lower, same_codes}

-- A `Status` outside this list, which `Parse` never answers, is not represented.
pub data Status : Type 0 where
  active limited very_limited suspended : Status

abbrev pub ordered : List Status
ordered = active ∷ limited ∷ very_limited ∷ suspended ∷ []

-- The text of the constant.
abbrev pub text_of : Status → String
text_of active = "active"
text_of limited = "limited"
text_of very_limited = "very_limited"
text_of suspended = "suspended"

-- The loop of `Parse`.
unfoldable pub parse_among : List Status → List ℕ → Status
unfolding same_codes codes
parse_among [] v = suspended
parse_among (s ∷ rest) v = if same_codes (codes (text_of s)) v then s else parse_among rest v

abbrev pub is_empty : List ℕ → Bool
is_empty [] = true
is_empty (c ∷ cs) = false

unfoldable pub normalized : String → List ℕ
unfolding to_lower trim_space codes
normalized raw = to_lower (trim_space (codes raw))

unfoldable pub parse : String → Status
unfolding parse_among normalized
parse raw = if is_empty (normalized raw) then active else parse_among ordered (normalized raw)

abbrev status_code : Status → ℕ
status_code active = 0
status_code limited = 1
status_code very_limited = 2
status_code suspended = 3

abbrev pub status_beq : Status → Status → Bool
status_beq a b = nat_beq (status_code a) (status_code b)

pub status_beq_iff : (a b : Status) → (status_beq a b ≡ true) ↔ (a ≡ b)
status_beq_iff a b = ground arith

instance abbrev pub status_eq : Eq Status
status_eq = record { beq = status_beq; reflects = status_beq_iff }

-- The loop of `rank`, from index `i` on.
abbrev pub rank_from : ℕ → List Status → Status → ℕ
rank_from i [] s = length ordered - 1
rank_from i (v ∷ vs) s = if v == s then i else rank_from (suc i) vs s

abbrev pub rank : Status → ℕ
rank s = rank_from 0 ordered s

abbrev pub is_restricted : Status → Bool
is_restricted s = ltb 0 (rank s)

pub data Capability : Type 0 where
  transfers standard_rate_limits quick_share member_link_tier use_sendly : Capability

abbrev capability_code : Capability → ℕ
capability_code transfers = 0
capability_code standard_rate_limits = 1
capability_code quick_share = 2
capability_code member_link_tier = 3
capability_code use_sendly = 4

abbrev pub capability_beq : Capability → Capability → Bool
capability_beq a b = nat_beq (capability_code a) (capability_code b)

pub capability_beq_iff : (a b : Capability) → (capability_beq a b ≡ true) ↔ (a ≡ b)
capability_beq_iff a b = ground arith

instance abbrev pub capability_eq : Eq Capability
capability_eq = record { beq = capability_beq; reflects = capability_beq_iff }

-- Each capability with the status from which it is gone.
abbrev pub capabilities : List (Capability × Status)
capabilities =
    (transfers, limited)
    ∷ (standard_rate_limits, limited)
    ∷ (quick_share, very_limited)
    ∷ (member_link_tier, very_limited)
    ∷ (use_sendly, suspended)
    ∷ []

abbrev pub allowed_by : List (Capability × Status) → Status → Capability → Bool
allowed_by [] s c = true
allowed_by (r ∷ rs) s c = if r.0 == c then ltb (rank s) (rank r.1) else allowed_by rs s c

abbrev pub allows : Status → Capability → Bool
allows s c = allowed_by capabilities s c

abbrev pub restrictions_in : List (Capability × Status) → Status → List Capability
restrictions_in [] s = []
restrictions_in (r ∷ rs) s =
    if not (allows s r.0) then r.0 ∷ restrictions_in rs s else restrictions_in rs s

abbrev pub restrictions : Status → List Capability
restrictions s = restrictions_in capabilities s

-- `Effective`
abbrev pub effective : Status → Option Time → Time → Status
effective s none now = s
effective s (some expires_at) now = if leb expires_at now then active else s

-- `Info`, as far as its method reads it.
pub record Info : Type 0 where
  pub status : String
  pub expires_at : Option Time

-- `(*Info).Effective`
unfoldable pub info_effective : Option Info → Time → Status
unfolding parse
info_effective none now = active
info_effective (some i) now = effective (parse i.status) i.expires_at now
