-- ===== src/Fuzzer/Samples.antt =====
-- What the fuzz tester takes from elsewhere, as concrete functions.
use my_mad_kv.Prelude.{
  ℕ, zero, suc, ◌-◌, ◌<◌, ◌≡◌, refl, ap, ◌↔◌, Bool, true, false, not, ◌&&◌, none, some, List, [],
  ◌∷◌, arith, ltb, ◌==◌, length, set, get_elem?, replicate, if◌then◌else◌,
}
use my_mad_kv.Text.{codes}
use my_mad_kv.Runner.Error.{ok}
use my_mad_kv.Runner.Ioapi.{get_resp}
use my_mad_kv.Fuzzer.Outside.{Rng, Bits, Clients}

pub counting_lt : (max s : ℕ) → 0 < max → (if ltb s max then s else (max - 1)) < max
counting_lt max s h = ground arith

-- It draws the numbers from its start on, as far as they are in range.
abbrev pub counting : Rng
counting = record {
  Source = ℕ;
  index = λ max s. (if ltb s max then s else (max - 1), suc s);
  flip = λ s. (true, suc s);
  text = λ len s. (replicate len 97, suc s);
  index_lt = counting_lt;
}

abbrev pub all_set : List Bool → Bool
all_set [] = true
all_set (b ∷ v) = b && all_set v

abbrev pub all_unset : List Bool → Bool
all_unset [] = true
all_unset (b ∷ v) = not b && all_unset v

pub length-replicate : (n : ℕ) (b : Bool) → length (replicate n b) ≡ n
length-replicate zero b = refl
length-replicate (suc n) b = ap suc (length-replicate n b)

pub get_elem?-replicate : (n : ℕ) (b : Bool) (i : ℕ) → i < n → get_elem? (replicate n b) i ≡ some b
get_elem?-replicate zero b i h = absurd (omega (arith, h))
get_elem?-replicate (suc n) b zero h = refl
get_elem?-replicate (suc n) b (suc i) h = get_elem?-replicate n b i (omega arith)

pub length-set : (v : List Bool) (i : ℕ) (b : Bool) → length (set v i b) ≡ length v
length-set [] i b = refl
length-set (x ∷ v) zero b = refl
length-set (x ∷ v) (suc i) b = ap suc (length-set v i b)

pub get_elem?-set :
    (v : List Bool) (i j : ℕ) (b : Bool)
    → i < length v
    → get_elem? (set v i b) j ≡ (if i == j then some b else get_elem? v j)
get_elem?-set [] i j b h = absurd (omega (arith, h))
get_elem?-set (x ∷ v) zero zero b h = refl
get_elem?-set (x ∷ v) zero (suc j) b h =
    let off : (0 == suc j) ≡ false = ground arith in rw off refl
get_elem?-set (x ∷ v) (suc i) zero b h =
    let off : (suc i == 0) ≡ false = ground arith in rw off refl
get_elem?-set (x ∷ v) (suc i) (suc j) b h =
    let same : (suc i == suc j) ≡ (i == j) = ground arith in
    rw same (get_elem?-set v i j b (omega arith))

pub get_elem?-lt : (v : List Bool) (i : ℕ) → i < length v → (b : Bool) × (get_elem? v i ≡ some b)
get_elem?-lt [] i h = absurd (omega (arith, h))
get_elem?-lt (x ∷ v) zero h = (x, refl)
get_elem?-lt (x ∷ v) (suc i) h = get_elem?-lt v i (omega arith)

pub all_set_iff :
    (v : List Bool) → (all_set v ≡ true) ↔ ((i : ℕ) → i < length v → get_elem? v i ≡ some true)
all_set_iff [] = ((λ h i lt. absurd (omega (arith, lt))), λ h. refl)
all_set_iff (true ∷ v) =
    ((λ h. go ((all_set_iff v).0 h)), λ h. (all_set_iff v).1 (λ i lt. h (suc i) (omega arith)))
  where
    go :
        ((i : ℕ) → i < length v → get_elem? v i ≡ some true)
        → (i : ℕ) → i < suc (length v)
        → get_elem? (true ∷ v) i ≡ some true
    go h zero lt = refl
    go h (suc i) lt = h i (omega arith)
all_set_iff (false ∷ v) = ((λ h. absurd (cc)), λ h. absurd (let first = h 0 (omega arith) in cc))

pub all_unset_iff :
    (v : List Bool) → (all_unset v ≡ true) ↔ ((i : ℕ) → i < length v → get_elem? v i ≡ some false)
all_unset_iff [] = ((λ h i lt. absurd (omega (arith, lt))), λ h. refl)
all_unset_iff (false ∷ v) =
    ((λ h. go ((all_unset_iff v).0 h)), λ h. (all_unset_iff v).1 (λ i lt. h (suc i) (omega arith)))
  where
    go :
        ((i : ℕ) → i < length v → get_elem? v i ≡ some false)
        → (i : ℕ) → i < suc (length v)
        → get_elem? (false ∷ v) i ≡ some false
    go h zero lt = refl
    go h (suc i) lt = h i (omega arith)
all_unset_iff (true ∷ v) = ((λ h. absurd (cc)), λ h. absurd (let first = h 0 (omega arith) in cc))

abbrev pub bitmap : Bits
bitmap = record {
  BitVec = List Bool;
  from_elem = λ n b. replicate n b;
  len = length;
  get = get_elem?;
  set = set;
  all = all_set;
  none_set = all_unset;
  len-from_elem = length-replicate;
  get-from_elem = get_elem?-replicate;
  len-set = length-set;
  get-set = get_elem?-set;
  get-lt = get_elem?-lt;
  all_iff = all_set_iff;
  none_set_iff = all_unset_iff;
}

-- Clients that find no value at any key.
abbrev pub empty_clients : Clients
empty_clients = record {
  Procs = ℕ;
  send_call = λ cidx call procs. ok procs;
  wait_resp = λ cidx procs. ok (get_resp (codes "a") none, procs);
  stop_client = λ cidx procs. ok procs;
}
