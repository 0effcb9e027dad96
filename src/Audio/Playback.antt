-- ===== src/Audio/Playback.antt =====
-- The addresses that samples are read from, and the carry that comes late: `emit_sample` of
-- crates/rustyn64-audio/src/lib.rs.
use rusty_n.Base.{
  ℕ, zero, suc, ◌+◌, ◌-◌, ◌*◌, ◌/◌, ◌%◌, ◌^◌, ◌≤◌, ◌<◌, ◌≡◌, refl, ap, ap₂, ◌∙◌, sym, arith,
}
use rusty_n.Base.{
  Bool, true, false, List, [], ◌∷◌, ◌++◌, ◌&&◌, ltb, leb, ◌==◌, if◌then◌else◌, bit_and, bit_or,
  add32, shr, not32,
}
use rusty_n.Base.{bit_and_field, bit_and_low, bit_or_disjoint}
use mathlib.Core.List.{append-nil, append_assoc}
use rusty_n.Audio.{Audio, StereoSample, page, carried, play, idle, retire, emit_sample}

-- The address of the next sample: the front address, with the carry that is still to come.
abbrev pub next_addr : Audio → ℕ
next_addr ai = ai.dma_addr.0 + ai.addr_carry * page

high_part : (a : ℕ) → a < 2 ^ 32 → bit_and a (not32 (page - 1)) ≡ a / 8192 * 8192
high_part a h = bit_and_field 13 19 a ∙ omega arith

low_part : (a : ℕ) → bit_and a (page - 1) ≡ a % 8192
low_part a = bit_and_low 13 a

join : (q r : ℕ) → r < 8192 → bit_or (q * 8192) r ≡ q * 8192 + r
join q r h = bit_or_disjoint 13 q r h

carried_lem : (ai : Audio) → next_addr ai < 2 ^ 32 → carried ai ≡ next_addr ai
unfolding carried
carried_lem ai h =
    ap₂ bit_or (carry ai.dma_addr.0 ai.addr_carry h) (low_part ai.dma_addr.0)
    ∙ (join (ai.dma_addr.0 / 8192 + ai.addr_carry) (ai.dma_addr.0 % 8192) (omega arith)
        ∙ omega arith)
  where
    carry :
        (a c : ℕ)
        → a + c * page < 2 ^ 32
        → add32 (bit_and a (not32 (page - 1))) (c * page) ≡ (a / 8192 + c) * 8192
    carry a c k = omega (arith, high_part a (omega arith))

-- The front address once a word is played, and the carry it leaves, add up to the next word's.
advance_lem :
    (a : ℕ)
    → a + 4 < 2 ^ 32
    → bit_or (bit_and a (not32 (page - 1))) (bit_and (add32 (bit_and a (page - 1)) 4) (page - 1))
        + (if leb page (add32 (bit_and a (page - 1)) 4) then 1 else 0) * page
      ≡ a + 4
advance_lem a h =
    ap₂ (λ (t u : ℕ). t + (if leb page u then 1 else 0) * page)
      (ap₂ bit_or (high_part a (omega arith)) (
          low_part (add32 (bit_and a (page - 1)) 4) ∙ ap (λ (t : ℕ). add32 t 4 % 8192) (low_part a))
        ∙ join (a / 8192) (add32 (a % 8192) 4 % 8192) (omega arith))
      (ap (λ (t : ℕ). add32 t 4) (low_part a))
    ∙ total
  where
    total :
        a / 8192 * 8192
          + add32 (a % 8192) 4 % 8192
          + (if leb page (add32 (a % 8192) 4) then 1 else 0) * page
        ≡ a + 4
    total = ground arith

play_addr :
    (read : ℕ → ℕ) (ai : Audio)
    → next_addr ai + 4 < 2 ^ 32
    → next_addr (play read ai) ≡ next_addr ai + 4
unfolding play
play_addr read ai h =
    let here = carried_lem ai (omega arith) in
    advance_lem (carried ai) (omega (arith, here)) ∙ ap (λ (t : ℕ). t + 4) here

-- The sample of the word at an address of the 24-bit bus.
abbrev pub sample_at : (ℕ → ℕ) → ℕ → StereoSample
sample_at read addr =
    let word = read (bit_and addr 0x00ff_ffff) in
    record { left = shr word 16; right = word % 2 ^ 16 }

play_sink :
    (read : ℕ → ℕ) (ai : Audio)
    → next_addr ai < 2 ^ 32
    → (play read ai).sink ≡ ai.sink ++ sample_at read (next_addr ai) ∷ []
unfolding play
play_sink read ai h = ap (λ (a : ℕ). ai.sink ++ sample_at read a ∷ []) (carried_lem ai h)

-- A transfer that plays, with words left.
pub record IsPlaying (ai : Audio) : Type 0 where
  pub queued : 0 < ai.dma_count
  pub enabled : ai.dma_enable ≡ true
  pub left_over : 0 < ai.dma_len.0

all_three : (c l : ℕ) (e : Bool) → 0 < c → 0 < l → e ≡ true → (ltb 0 c && (ltb 0 l && e)) ≡ true
all_three c l e hc hl he = ground arith

emit_sample-play :
    (read : ℕ → ℕ) (ai : Audio) → IsPlaying ai → emit_sample read ai ≡ retire (play read ai)
unfolding emit_sample
emit_sample-play read ai h =
    ap (λ (b : Bool). retire (if b then play read ai else idle ai))
      (all_three ai.dma_count ai.dma_len.0 ai.dma_enable h.queued h.left_over h.enabled)

retire_busy : (ai : Audio) → 0 < ai.dma_len.0 → retire ai ≡ (ai, false)
unfolding retire
retire_busy ai h = ground arith

retire_sink : (ai : Audio) → (retire ai).0.sink ≡ ai.sink
unfolding retire
retire_sink ai = ground arith

-- The converter takes `n` samples.
pub emits : (ℕ → ℕ) → ℕ → Audio → Audio
emits read zero ai = ai
emits read (suc n) ai = emits read n (emit_sample read ai).0

-- The samples of `n` consecutive words.
pub words : (ℕ → ℕ) → ℕ → ℕ → List StereoSample
words read addr zero = []
words read addr (suc n) = sample_at read addr ∷ words read (addr + 4) n

play-IsPlaying :
    (read : ℕ → ℕ) (ai : Audio)
    → IsPlaying ai
    → 4 < ai.dma_len.0
    → ai.dma_len.0 < 2 ^ 18
    → IsPlaying (play read ai) × ((play read ai).dma_len.0 + 4 ≡ ai.dma_len.0)
unfolding play
play-IsPlaying read ai h more bound =
    (record { queued = h.queued; enabled = h.enabled; left_over = omega arith }, omega arith)

emit_sample-busy :
    (read : ℕ → ℕ) (ai : Audio)
    → IsPlaying ai
    → 4 < ai.dma_len.0
    → ai.dma_len.0 < 2 ^ 18
    → (emit_sample read ai).0 ≡ play read ai
emit_sample-busy read ai h more bound =
    ap (λ (t : Audio × Bool). t.0)
      (emit_sample-play read ai h
        ∙ retire_busy (play read ai) (play-IsPlaying read ai h more bound).0.left_over)

-- While a transfer plays that has at least `n` words left and does not run over the 32-bit address
-- space, `n` samples are the words at consecutive addresses, from the front address with its late carry:
-- within a transfer the carry that comes one sample late is not heard.
pub emits-words :
    (read : ℕ → ℕ) (n : ℕ) (ai : Audio)
    → IsPlaying ai
    → ai.dma_len.0 < 2 ^ 18
    → 4 * n ≤ ai.dma_len.0
    → next_addr ai + 4 * n < 2 ^ 32
    → (emits read n ai).sink ≡ ai.sink ++ words read (next_addr ai) n
unfolding emits words
emits-words read zero ai h bound left room = sym (append-nil ai.sink)
emits-words read (suc zero) ai h bound left room =
    ap (λ (t : Audio × Bool). t.0.sink) (emit_sample-play read ai h)
    ∙ (retire_sink (play read ai) ∙ play_sink read ai (omega arith))
emits-words read (suc (suc n)) ai h bound left room =
    let kept = play-IsPlaying read ai h (omega arith) bound in
    let addr = play_addr read ai (omega arith) in
    ap (λ (t : Audio). (emits read (suc n) t).sink) (emit_sample-busy read ai h (omega arith) bound)
    ∙ (emits-words read (suc n) (play read ai) kept.0 (omega (arith, kept.1))
          (omega (arith, kept.1)) (omega (arith, addr))
        ∙ (ap₂ (λ (s : List StereoSample) (a : ℕ). s ++ words read a (suc n))
              (play_sink read ai (omega arith)) addr
            ∙ append_assoc ai.sink (sample_at read (next_addr ai) ∷ [])
                (words read (next_addr ai + 4) (suc n))))

promoted :
    (ai : Audio)
    → ai.dma_count ≡ 2
    → ai.dma_len.0 ≡ 0
    → next_addr (retire ai).0 ≡ ai.dma_addr.1 + ai.addr_carry * page
unfolding retire
promoted ai h e = ground arith

play_last :
    (read : ℕ → ℕ) (ai : Audio)
    → ai.dma_len.0 ≡ 4
    → ((play read ai).dma_len.0 ≡ 0)
      × ((play read ai).addr_carry * page
          ≡ (if leb page (add32 (bit_and (carried ai) (page - 1)) 4) then 1 else 0) * page)
unfolding play
play_last read ai h = (omega arith, refl)

page_end :
    (a : ℕ)
    → a % 4 ≡ 0
    → (if leb page (add32 (a % 8192) 4) then 1 else 0) * page
      ≡ (if (a + 4) % page == 0 then page else 0)
page_end a h = ground arith

-- When the last word of a transfer is played with another queued, from a word-aligned address in
-- the 32-bit address space, the next transfer is played from its own address if the word was
-- not the last of an 8 KiB page, and from one page further if it was: the late carry.
pub emit_sample_carry :
    (read : ℕ → ℕ) (ai : Audio)
    → IsPlaying ai
    → ai.dma_count ≡ 2
    → ai.dma_len.0 ≡ 4
    → next_addr ai < 2 ^ 32
    → next_addr ai % 4 ≡ 0
    → next_addr (emit_sample read ai).0
      ≡ ai.dma_addr.1 + (if (next_addr ai + 4) % page == 0 then page else 0)
unfolding play
emit_sample_carry read ai h two last room aligned =
    ap (λ (t : Audio × Bool). next_addr t.0) (emit_sample-play read ai h)
    ∙ (promoted (play read ai) two (play_last read ai last).0
        ∙ ap (λ (t : ℕ). ai.dma_addr.1 + t)
            ((play_last read ai last).1
              ∙ (ap (λ (t : ℕ). (if leb page (add32 t 4) then 1 else 0) * page)
                    (low_part (carried ai) ∙ ap (λ (t : ℕ). t % 8192) (carried_lem ai room))
                  ∙ page_end (next_addr ai) aligned)))
