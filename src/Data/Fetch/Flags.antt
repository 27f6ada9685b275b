-- ===== src/Data/Fetch/Flags.antt =====
-- What the decoder reads in the flags that the encoder sets.
use moq_rs.Prelude.{ℕ, ◌<◌, bit_and, Bool, true, false, not, ◌&&◌, ◌==◌, ltb, ◌≡◌, refl, arith}
use moq_rs.Data.Fetch.{all_flags, has_flag}

-- The ways to say the subgroup id.
pub data SubgroupKind : Type 0 where
  datagram zero_id prior_id next_id own_id : SubgroupKind

abbrev pub kind_bits : SubgroupKind → ℕ
kind_bits datagram = 0x40
kind_bits zero_id = 0x00
kind_bits prior_id = 0x01
kind_bits next_id = 0x02
kind_bits own_id = 0x03

abbrev pub is_datagram : SubgroupKind → Bool
is_datagram datagram = true
is_datagram zero_id = false
is_datagram prior_id = false
is_datagram next_id = false
is_datagram own_id = false

abbrev pub mask_bits : SubgroupKind → ℕ
mask_bits datagram = 0
mask_bits zero_id = 0
mask_bits prior_id = 1
mask_bits next_id = 2
mask_bits own_id = 3

pub record FlagsRead (flags : ℕ) (k : SubgroupKind) (g o p e : Bool) : Type 0 where
  pub reads_datagram : has_flag flags 0x40 ≡ is_datagram k
  pub reads_mask : bit_and flags 0x03 ≡ mask_bits k
  pub reads_group : has_flag flags 0x08 ≡ g
  pub reads_object : has_flag flags 0x04 ≡ o
  pub reads_priority : has_flag flags 0x10 ≡ p
  pub reads_extensions : has_flag flags 0x20 ≡ e
  pub is_object : flags < 0x80

abbrev same : Bool → Bool → Bool
same true b = b
same false b = not b

-- The same as one test, to be run on every combination.
check : SubgroupKind → Bool → Bool → Bool → Bool → Bool
check k g o p e =
    let f = all_flags (kind_bits k) g o p e in
    same (has_flag f 0x40) (is_datagram k)
    && bit_and f 0x03 == mask_bits k
    && same (has_flag f 0x08) g
    && same (has_flag f 0x04) o
    && same (has_flag f 0x10) p
    && same (has_flag f 0x20) e
    && ltb f 0x80

abbrev both : (Bool → Bool) → Bool
both f = f true && f false

both-at : (f : Bool → Bool) (b : Bool) → both f ≡ true → f b ≡ true
both-at f true h = ground arith
both-at f false h = ground arith

check_all : SubgroupKind → Bool
unfolding check
check_all k = both λ g. both λ o. both λ p. both λ e. check k g o p e

all_good : (k : SubgroupKind) → check_all k ≡ true
unfolding check_all
all_good datagram = refl
all_good zero_id = refl
all_good prior_id = refl
all_good next_id = refl
all_good own_id = refl

check-true : (k : SubgroupKind) (g o p e : Bool) → check k g o p e ≡ true
unfolding check_all
check-true k g o p e =
    both-at (λ e. check k g o p e) e
      (both-at (λ p. both λ e. check k g o p e) p
        (both-at (λ o. both λ p. both λ e. check k g o p e) o
          (both-at (λ g. both λ o. both λ p. both λ e. check k g o p e) g (all_good k))))

same-eq : (a b : Bool) → same a b ≡ true → a ≡ b
same-eq true true h = refl
same-eq true false h = cc
same-eq false true h = cc
same-eq false false h = refl

pub read_flags :
    (k : SubgroupKind) (g o p e : Bool) → FlagsRead (all_flags (kind_bits k) g o p e) k g o p e
unfolding check
read_flags k g o p e =
    let all' = check-true k g o p e in
    let f = all_flags (kind_bits k) g o p e in
    record {
      reads_datagram = same-eq (has_flag f 0x40) (is_datagram k) (ground arith);
      reads_mask = ground arith;
      reads_group = same-eq (has_flag f 0x08) g (ground arith);
      reads_object = same-eq (has_flag f 0x04) o (ground arith);
      reads_priority = same-eq (has_flag f 0x10) p (ground arith);
      reads_extensions = same-eq (has_flag f 0x20) e (ground arith);
      is_object = ground arith;
    }
