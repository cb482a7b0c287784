-- ===== src/Fuzzer/History/Instants.antt =====
-- Moments in a run of runner/src/bin/fuzzer/main.rs, whose clock moves on at each call and each
-- response: as many as one likes lie between two of them.
use my_mad_kv.Prelude.{ℕ, ◌≤◌, ◌<◌, ◌≡◌, ◌⊎◌, inl, inr, refl, arith}

-- The moment of a call or a response at `tick`, or one of those behind it, in front of the next.
pub record Instant : Type 0 where
  pub tick : ℕ
  pub rank : ℕ

-- the moment of a call or a response
abbrev pub at_tick : ℕ → Instant
at_tick t = record { tick = t; rank = 0 }

abbrev pub IsBefore : Instant → Instant → Type 0
IsBefore a b = (a.tick < b.tick) ⊎ ((a.tick ≡ b.tick) × (a.rank < b.rank))

abbrev pub IsUpto : Instant → Instant → Type 0
IsUpto a b = (a.tick < b.tick) ⊎ ((a.tick ≡ b.tick) × (a.rank ≤ b.rank))

pub IsBefore-or : (a b : Instant) → IsBefore a b ⊎ IsUpto b a
IsBefore-or a b = ground arith

pub IsBefore-absurd : (a b : Instant) → IsBefore a b → IsUpto b a → ⊥
IsBefore-absurd a b h k = ground (arith, h, k)

pub IsUpto-refl : (a : Instant) → IsUpto a a
IsUpto-refl a = inr (refl, omega arith)

pub IsBefore-IsUpto : (a b c : Instant) → IsBefore a b → IsUpto b c → IsBefore a c
IsBefore-IsUpto a b c h k = ground (arith, h, k)

pub IsUpto-IsBefore : (a b c : Instant) → IsUpto a b → IsBefore b c → IsBefore a c
IsUpto-IsBefore a b c h k = ground (arith, h, k)

pub IsUpto-IsUpto : (a b c : Instant) → IsUpto a b → IsUpto b c → IsUpto a c
IsUpto-IsUpto a b c h k = ground (arith, h, k)

pub at_tick-IsBefore : (m n : ℕ) → m < n → IsBefore (at_tick m) (at_tick n)
at_tick-IsBefore m n h = inl h

pub at_tick-IsUpto : (m n : ℕ) → m ≤ n → IsUpto (at_tick m) (at_tick n)
at_tick-IsUpto m n h = ground (arith, h)

pub IsBefore-lt : (m n : ℕ) → IsBefore (at_tick m) (at_tick n) → m < n
IsBefore-lt m n h = ground (arith, h)

pub IsUpto-le : (m n : ℕ) → IsUpto (at_tick m) (at_tick n) → m ≤ n
IsUpto-le m n h = ground (arith, h)

pub IsUpto-of_IsBefore : (a b : Instant) → IsBefore a b → IsUpto a b
IsUpto-of_IsBefore a b h = ground (arith, h)

pub zero_least : (a : Instant) → IsUpto (at_tick 0) a
zero_least a = ground arith
