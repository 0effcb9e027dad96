-- ===== src/Cpu/Alu.antt =====
-- The integer operations: crates/rustyn64-cpu/src/alu.rs. A register is a word of 64 bits; `signed_lt`
-- and the tests for overflow read a word as a two's complement number.
pub mod Overflow
pub mod Products
pub mod Stall
use rusty_n.Base.{ℕ, ◌+◌, ◌-◌, ◌*◌, ◌/◌, ◌%◌, ◌^◌, bit_and, bit_or, bit_xor}
use rusty_n.Base.{Bool, true, false, ◌&&◌, ◌||◌, not}
use rusty_n.Base.{
  ◌==◌, ltb, leb, if◌then◌else◌, u32, u64, add32, sub32, add64, sub64, not64, sext32,
}
use rusty_n.Cpu.Exception.{Exception}

-- `Result<u64, Exception>`
pub data Computed : Type 0 where
  ok : ℕ → Computed
  err : Exception → Computed

-- A word of `w` bits as a signed number, moved up by 2 ^ (w - 1).
abbrev pub biased32 : ℕ → ℕ
biased32 a = (u32 a + 2 ^ 31) % 2 ^ 32

abbrev pub biased64 : ℕ → ℕ
biased64 a = (a + 2 ^ 63) % 2 ^ 64

-- Whether a signed sum or difference has no representation in the word.
abbrev pub add_overflows32 : ℕ → ℕ → Bool
add_overflows32 a b =
    ltb (biased32 a + biased32 b) (2 ^ 31) || leb (2 ^ 31 + 2 ^ 32) (biased32 a + biased32 b)

abbrev pub sub_overflows32 : ℕ → ℕ → Bool
sub_overflows32 a b =
    ltb (biased32 a + 2 ^ 31) (biased32 b) || leb (biased32 b + 2 ^ 31) (biased32 a)

abbrev pub add_overflows64 : ℕ → ℕ → Bool
add_overflows64 a b =
    ltb (biased64 a + biased64 b) (2 ^ 63) || leb (2 ^ 63 + 2 ^ 64) (biased64 a + biased64 b)

abbrev pub sub_overflows64 : ℕ → ℕ → Bool
sub_overflows64 a b =
    ltb (biased64 a + 2 ^ 63) (biased64 b) || leb (biased64 b + 2 ^ 63) (biased64 a)

pub add : ℕ → ℕ → Computed
add a b =
    if add_overflows32 a b then err Exception.overflow else ok (sext32 (add32 (u32 a) (u32 b)))

pub addu : ℕ → ℕ → ℕ
addu a b = sext32 (add32 (u32 a) (u32 b))

pub sub : ℕ → ℕ → Computed
sub a b =
    if sub_overflows32 a b then err Exception.overflow else ok (sext32 (sub32 (u32 a) (u32 b)))

pub subu : ℕ → ℕ → ℕ
subu a b = sext32 (sub32 (u32 a) (u32 b))

pub dadd : ℕ → ℕ → Computed
dadd a b = if add_overflows64 a b then err Exception.overflow else ok (add64 a b)

pub daddu : ℕ → ℕ → ℕ
daddu a b = add64 a b

pub dsub : ℕ → ℕ → Computed
dsub a b = if sub_overflows64 a b then err Exception.overflow else ok (sub64 a b)

pub dsubu : ℕ → ℕ → ℕ
dsubu a b = sub64 a b

abbrev bit_of : Bool → ℕ
bit_of b = if b then 1 else 0

-- `(a as i64) < (b as i64)`
abbrev pub signed_lt : ℕ → ℕ → Bool
signed_lt a b = ltb (biased64 a) (biased64 b)

pub slt : ℕ → ℕ → ℕ
slt a b = bit_of (signed_lt a b)

pub sltu : ℕ → ℕ → ℕ
sltu a b = bit_of (ltb a b)

pub logical_and : ℕ → ℕ → ℕ
logical_and a b = bit_and a b

pub logical_or : ℕ → ℕ → ℕ
logical_or a b = bit_or a b

pub logical_xor : ℕ → ℕ → ℕ
logical_xor a b = bit_xor a b

pub logical_nor : ℕ → ℕ → ℕ
logical_nor a b = not64 (bit_or a b)

pub lui : ℕ → ℕ
lui imm = sext32 (u32 (imm * 2 ^ 16))

pub sll : ℕ → ℕ → ℕ
sll v sa = sext32 (u32 (u32 v * 2 ^ bit_and sa 31))

pub srl : ℕ → ℕ → ℕ
srl v sa = sext32 (u32 v / 2 ^ bit_and sa 31)

-- `(v as i64) >> k`, for `k` below 64: the sign fills in from above.
abbrev pub arithmetic_shr : ℕ → ℕ → ℕ
arithmetic_shr v k = if ltb v (2 ^ 63) then v / 2 ^ k else not64 (not64 v / 2 ^ k)

pub sra : ℕ → ℕ → ℕ
sra v sa = sext32 (u32 (arithmetic_shr v (bit_and sa 31)))

pub dsll : ℕ → ℕ → ℕ
dsll v sa = u64 (v * 2 ^ bit_and sa 63)

pub dsrl : ℕ → ℕ → ℕ
dsrl v sa = v / 2 ^ bit_and sa 63

pub dsra : ℕ → ℕ → ℕ
dsra v sa = arithmetic_shr v (bit_and sa 63)

pub record HiLo : Type 0 where
  pub hi : ℕ
  pub lo : ℕ

-- `((b << 29) as i64) >> 29`: the sign of digit 34.
abbrev pub sext35 : ℕ → ℕ
sext35 b = arithmetic_shr (u64 (b * 2 ^ 29)) 29

pub mult : ℕ → ℕ → HiLo
mult a b =
    let product = u64 (a * sext35 b) in
    record { hi = sext32 (u32 (product / 2 ^ 32)); lo = sext32 (u32 product) }

pub multu : ℕ → ℕ → HiLo
multu a b =
    let product = u64 (u32 a * u32 b) in
    record { hi = sext32 (u32 (product / 2 ^ 32)); lo = sext32 (u32 product) }

-- A word of 64 bits as one of 128 with the same sign.
abbrev sext128 : ℕ → ℕ
sext128 a = if ltb a (2 ^ 63) then a else a + (2 ^ 128 - 2 ^ 64)

pub dmult : ℕ → ℕ → HiLo
dmult a b =
    let product = sext128 a * sext128 b % 2 ^ 128 in
    record { hi = u64 (product / 2 ^ 64); lo = u64 product }

pub dmultu : ℕ → ℕ → HiLo
dmultu a b =
    let product = a * b % 2 ^ 128 in record { hi = u64 (product / 2 ^ 64); lo = u64 product }

abbrev is_negative : ℕ → Bool
is_negative a = leb (2 ^ 63) a

abbrev negate : ℕ → ℕ
negate a = (2 ^ 64 - a) % 2 ^ 64

-- The absolute value of a signed word.
abbrev magnitude : ℕ → ℕ
magnitude a = if is_negative a then negate a else a

-- `n.wrapping_div(d)` and `n.wrapping_rem(d)` on `i64`, for `d` other than 0: towards zero.
pub signed_div : ℕ → ℕ → ℕ
signed_div n d =
    let q = magnitude n / magnitude d in
    if is_negative n
    then (if is_negative d then u64 q else negate q)
    else if is_negative d
    then negate q
    else q

pub signed_rem : ℕ → ℕ → ℕ
signed_rem n d = let r = magnitude n % magnitude d in if is_negative n then negate r else r

pub div : ℕ → ℕ → HiLo
div dividend divisor =
    let n = sext32 (u32 dividend) in
    let d = sext35 divisor in
    if d == 0
    then record { hi = sext32 (u32 n); lo = if is_negative n then 1 else 2 ^ 64 - 1 }
    else if (n == 2 ^ 64 - 2 ^ 31) && (d == 2 ^ 64 - 1)
    then record { hi = 0; lo = sext32 (u32 n) }
    else record { hi = sext32 (u32 (signed_rem n d)); lo = sext32 (u32 (signed_div n d)) }

pub divu : ℕ → ℕ → HiLo
divu dividend divisor =
    let n = u32 dividend in
    let d = u32 divisor in
    if d == 0
    then record { hi = sext32 n; lo = sext32 (2 ^ 32 - 1) }
    else record { hi = sext32 (n % d); lo = sext32 (n / d) }

pub ddiv : ℕ → ℕ → HiLo
ddiv n d =
    if d == 0
    then record { hi = n; lo = if is_negative n then 1 else 2 ^ 64 - 1 }
    else if (n == 2 ^ 63) && (d == 2 ^ 64 - 1)
    then record { hi = 0; lo = n }
    else record { hi = signed_rem n d; lo = signed_div n d }

pub ddivu : ℕ → ℕ → HiLo
ddivu dividend divisor =
    if divisor == 0
    then record { hi = dividend; lo = 2 ^ 64 - 1 }
    else record { hi = dividend % divisor; lo = dividend / divisor }
