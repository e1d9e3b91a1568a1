-- ===== src/Trust/Scores.antt =====
-- The trust score, its bounds and the limits it leads to.
use offimesh.Prelude.{
  ℕ, ℤ, pos, ◌+ℤ◌, ◌≤ℤ◌, ◌≡◌, Bool, true, false, none, some, min_ℤ, max_ℤ, if◌then◌else◌, int_laws,
  arith, Option,
}
use offimesh.Models.{Device}
use offimesh.Trust.{
  DeviceTrustPayload, Integrity, verify_play_integrity, integrity_points, calculate_trust_score,
  get_limits, hardware_pass, software_pass, blocked_limits, has_token, is_established, age_points,
}

unfoldable pub clamp : ℤ → ℤ
clamp x = max_ℤ (pos 0) (min_ℤ (pos 100) x)

pub clamp-bounds : (x : ℤ) → (pos 0 ≤ℤ clamp x) × (clamp x ≤ℤ pos 100)
unfolding clamp
clamp-bounds x = ground arith

le-clamp : (x : ℤ) → pos 40 ≤ℤ x → pos 40 ≤ℤ clamp x
unfolding clamp
le-clamp x h = ground arith

le-sum :
    (a b c d : ℤ) → pos 40 ≤ℤ a → pos 0 ≤ℤ b → pos 0 ≤ℤ c → pos 0 ≤ℤ d → pos 40 ≤ℤ a +ℤ b +ℤ c +ℤ d
le-sum a b c d ha hb hc hd = omega int_laws

age_points-nonneg : (r : Option ℕ) (now : ℕ) → pos 0 ≤ℤ age_points r now
age_points-nonneg none now = omega arith
age_points-nonneg (some r) now = ground arith

-- Whatever the device, the integrity result and the payload, the score lies between 0 and 100.
pub calculate_trust_score-bounds :
    (d : Device) (r : Integrity) (p : DeviceTrustPayload) (now : ℕ)
    → (pos 0 ≤ℤ calculate_trust_score d r p now) × (calculate_trust_score d r p now ≤ℤ pos 100)
unfolding calculate_trust_score clamp
calculate_trust_score-bounds d r p now = clamp-bounds (
    integrity_points r
    +ℤ (if p.is_hardware_backed_key then pos 25 else pos 0)
    +ℤ (if is_established d.trust_level then pos 15 else pos 0)
    +ℤ age_points d.registered_at now)

-- A device that passed the integrity check has at least the 40 points that trust asks for.
pub passed-score :
    (d : Device) (p : DeviceTrustPayload) (now : ℕ)
    → has_token p.play_integrity_token ≡ true
    → pos 40 ≤ℤ calculate_trust_score d (verify_play_integrity p.play_integrity_token) p now
unfolding calculate_trust_score verify_play_integrity clamp
passed-score d p now h = rw h (
    le-clamp _ (
      le-sum (pos 40) (if p.is_hardware_backed_key then pos 25 else pos 0)
        (if is_established d.trust_level then pos 15 else pos 0) (age_points d.registered_at now)
        (omega arith) (ground arith) (ground arith) (age_points-nonneg d.registered_at now)))

pub get_limits_blocked : (hw : Bool) (s : ℤ) → get_limits false hw s ≡ blocked_limits
unfolding get_limits
get_limits_blocked hw s = ground arith

pub get_limits_passed :
    (hw : Bool) (s : ℤ)
    → pos 40 ≤ℤ s
    → get_limits true hw s ≡ (if hw then hardware_pass else software_pass)
unfolding get_limits
get_limits_passed hw s h = ground arith
