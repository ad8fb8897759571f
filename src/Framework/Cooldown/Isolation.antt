-- ===== src/Framework/Cooldown/Isolation.antt =====
-- The cooldown of a source depends on what happened to that source only.
use mangarr_gateway.Prelude.{
  Bool, Bool-cases, List, String, [], arith, beq_refl, false, inl, inr, keep, refl, string_eq,
  subst, sym, true, ℕ, ◌+◌, ◌==◌, ◌∙◌, ◌∷◌, ◌≡◌,
}
use mangarr_gateway.Prelude.Dict
use mangarr_gateway.Prelude.Dict.{Dict}
use mangarr_gateway.Framework.Cooldown.{
  Cooldown, enabled, duration, next_streak, record_failure, record_success, in_cooldown,
}

-- A call of one of the methods.
pub data Call : Type 0 where
  failure success : ℕ → String → Call
  check : ℕ → String → Call

abbrev pub about : String → Call → Bool
about key (failure _ k) = k == key
about key (success _ k) = k == key
about key (check _ k) = k == key

unfoldable pub call : Call → Cooldown → Cooldown
call (failure now k) c = record_failure now k c
call (success _ k) c = record_success k c
call (check now k) c = (in_cooldown now k c).1

unfoldable pub calls : List Call → Cooldown → Cooldown
unfolding call
calls [] c = c
calls (e ∷ es) c = calls es (call e c)

-- The two states agree on the source and on the knobs.
record Agree (key : String) (c d : Cooldown) : Type 0 where
  base : c.base ≡ d.base
  cap : c.cap ≡ d.cap
  until : Dict.get c.until key ≡ Dict.get d.until key
  streak : Dict.get c.streak key ≡ Dict.get d.streak key

failure-other :
    (now : ℕ) (k key : String) (c : Cooldown)
    → (k == key) ≡ false
    → Agree key (record_failure now k c) c
unfolding record_failure
failure-other now k key c h = record {
  base = ground arith;
  cap = ground arith;
  until = ground (arith, Dict.get-put c.until k (now + duration c (next_streak c k)) key);
  streak = ground (arith, Dict.get-put c.streak k (next_streak c k) key);
}

success-other :
    (k key : String) (c : Cooldown) → (k == key) ≡ false → Agree key (record_success k c) c
unfolding record_success
success-other k key c h = record {
  base = ground arith;
  cap = ground arith;
  until = ground (arith, Dict.get-pop c.until k key);
  streak = ground (arith, Dict.get-pop c.streak k key);
}

check-other :
    (now : ℕ) (k key : String) (c : Cooldown)
    → (k == key) ≡ false
    → Agree key (in_cooldown now k c).1 c
unfolding in_cooldown
check-other now k key c h = record {
  base = ground arith;
  cap = ground arith;
  until = ground (arith, Dict.get-pop c.until k key);
  streak = ground arith;
}

failure-same :
    (now : ℕ) (key : String) (c d : Cooldown)
    → Agree key c d
    → Agree key (record_failure now key c) (record_failure now key d)
unfolding record_failure enabled duration
failure-same now key c d a = record {
  base = ground (arith, a.base, a.cap);
  cap = ground (arith, a.base, a.cap);
  until = ground (
    arith,
    a.base,
    a.cap,
    a.until,
    a.streak,
    beq_refl key,
    Dict.get-put c.until key (now + duration c (next_streak c key)) key,
    Dict.get-put d.until key (now + duration d (next_streak d key)) key,
  );
  streak = ground (
    arith,
    a.base,
    a.cap,
    a.until,
    a.streak,
    beq_refl key,
    Dict.get-put c.streak key (next_streak c key) key,
    Dict.get-put d.streak key (next_streak d key) key,
  );
}

success-same :
    (key : String) (c d : Cooldown)
    → Agree key c d
    → Agree key (record_success key c) (record_success key d)
unfolding record_success enabled
success-same key c d a = record {
  base = ground (arith, a.base, a.cap);
  cap = ground (arith, a.base, a.cap);
  until = ground (
    arith,
    a.base,
    a.cap,
    a.until,
    beq_refl key,
    Dict.get-pop c.until key key,
    Dict.get-pop d.until key key,
  );
  streak = ground (
    arith,
    a.base,
    a.cap,
    a.streak,
    beq_refl key,
    Dict.get-pop c.streak key key,
    Dict.get-pop d.streak key key,
  );
}

check-same :
    (now : ℕ) (key : String) (c d : Cooldown)
    → Agree key c d
    → Agree key (in_cooldown now key c).1 (in_cooldown now key d).1
      × ((in_cooldown now key c).0 ≡ (in_cooldown now key d).0)
unfolding in_cooldown enabled
check-same now key c d a = (
  record {
    base = ground (arith, a.base, a.cap, a.until);
    cap = ground (arith, a.base, a.cap, a.until);
    until = ground (
      arith,
      a.base,
      a.cap,
      a.until,
      beq_refl key,
      Dict.get-pop c.until key key,
      Dict.get-pop d.until key key,
    );
    streak = ground (arith, a.base, a.cap, a.until, a.streak);
  },
  ground (arith, a.base, a.cap, a.until),
)

Agree-trans : (key : String) (b c d : Cooldown) → Agree key b c → Agree key c d → Agree key b d
Agree-trans key b c d x y = record {
  base = x.base ∙ y.base;
  cap = x.cap ∙ y.cap;
  until = x.until ∙ y.until;
  streak = x.streak ∙ y.streak;
}

same :
    (key : String) (e : Call) (c d : Cooldown)
    → about key e ≡ true
    → Agree key c d
    → Agree key (call e c) (call e d)
unfolding call
same key (failure now k) c d h a =
    let q = (string_eq.beq_iff k key).0 h in
    subst (λ i. Agree key (record_failure now i c) (record_failure now i d)) (sym q)
      (failure-same now key c d a)
same key (success now k) c d h a =
    let q = (string_eq.beq_iff k key).0 h in
    subst (λ i. Agree key (record_success i c) (record_success i d)) (sym q)
      (success-same key c d a)
same key (check now k) c d h a =
    let q = (string_eq.beq_iff k key).0 h in
    subst (λ i. Agree key (in_cooldown now i c).1 (in_cooldown now i d).1) (sym q)
      (check-same now key c d a).0

others :
    (key : String) (e : Call) (c d : Cooldown)
    → about key e ≡ false
    → Agree key c d
    → Agree key (call e c) d
unfolding call
others key (failure now k) c d h a = Agree-trans key _ c d (failure-other now k key c h) a
others key (success now k) c d h a = Agree-trans key _ c d (success-other k key c h) a
others key (check now k) c d h a = Agree-trans key _ c d (check-other now k key c h) a

calls-Agree :
    (key : String) (es : List Call) (c d : Cooldown)
    → Agree key c d
    → Agree key (calls es c) (calls (keep (about key) es) d)
unfolding calls keep
calls-Agree key [] c d a = a
calls-Agree key (e ∷ es) c d a = elim (Bool-cases (about key e)) [
  | inl h ↦ rw h (calls-Agree key es (call e c) (call e d) (same key e c d h a))
  | inr h ↦ rw h (calls-Agree key es (call e c) d (others key e c d h a))
]

-- Whatever calls were made, whether a source is in cooldown is the same as after the calls about
-- this source alone.
pub in_cooldown-calls :
    (key : String) (es : List Call) (now : ℕ) (c : Cooldown)
    → (in_cooldown now key (calls es c)).0 ≡ (in_cooldown now key (calls (keep (about key) es) c)).0
in_cooldown-calls key es now c =
    (check-same now key (calls es c) (calls (keep (about key) es) c)
      (calls-Agree key es c c (record { base = refl; cap = refl; until = refl; streak = refl }))).1
