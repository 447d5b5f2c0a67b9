-- ===== src/Rwfs/Find.antt =====
-- The places that are searched in the index.
use rewind_os.Base.{
  ℕ, zero, suc, ◌+◌, ◌≤◌, ◌<◌, ◌≡◌, refl, sym, ◌∙◌, Bool, true, false, ◌&&◌, none, some, List, ◌==◌,
  arith, Bool-cases, inl, inr, ap,
}
use native.Mathlib.Decide.{ℕ_discrete}
use rewind_os.Rwfs.{IndexEntry, entry_live, rwfs_streq_name}
use rewind_os.Rwfs.Files.{find_from}

-- A live entry of the name.
unfoldable pub hit : List ℕ → (ℕ → IndexEntry) → ℕ → Bool
hit name es i = ((es i).state == entry_live) && rwfs_streq_name (es i).name name

-- The first hit from `i` on.
pub record IsFirst (name : List ℕ) (es : ℕ → IndexEntry) (i k : ℕ) : Type 0 where
  pub from : i ≤ k
  pub match_lem : hit name es k ≡ true
  pub earlier : (j : ℕ) → i ≤ j → j < k → hit name es j ≡ false

step_hit :
    (n i : ℕ) (name : List ℕ) (es : ℕ → IndexEntry)
    → hit name es i ≡ true
    → find_from (suc n) i name es ≡ some i
unfolding find_from hit
step_hit n i name es h = rw h refl

step_miss :
    (n i : ℕ) (name : List ℕ) (es : ℕ → IndexEntry)
    → hit name es i ≡ false
    → find_from (suc n) i name es ≡ find_from n (i + 1) name es
unfolding find_from hit
step_miss n i name es h = rw h refl

IsFirst-suc :
    (name : List ℕ) (es : ℕ → IndexEntry) (i k : ℕ)
    → hit name es i ≡ false
    → IsFirst name es (i + 1) k
    → IsFirst name es i k
IsFirst-suc name es i k miss f = record {
  from = omega (arith, f.from);
  match_lem = f.match_lem;
  earlier = λ j low high. elim (ℕ_discrete j i) [
    | yes same ↦ rw same miss
    | no other ↦ f.earlier j (omega arith) high
  ];
}

here-IsFirst :
    (name : List ℕ) (es : ℕ → IndexEntry) (i k : ℕ)
    → i ≡ k
    → hit name es i ≡ true
    → IsFirst name es i k
here-IsFirst name es i k e h =
    rw (← e)
      (record { from = omega arith; match_lem = h; earlier = λ j low high. absurd (omega arith) })

pub find_from-some :
    (n i : ℕ) (name : List ℕ) (es : ℕ → IndexEntry) (k : ℕ)
    → find_from n i name es ≡ some k
    → IsFirst name es i k
unfolding find_from
find_from-some zero i name es k e = cc
find_from-some (suc n) i name es k e = elim (Bool-cases (hit name es i)) [
  | inl here ↦ here-IsFirst name es i k (let found = sym (step_hit n i name es here) ∙ e in cc) here
  | inr not_here ↦
      IsFirst-suc name es i k not_here
        (find_from-some n (i + 1) name es k (sym (step_miss n i name es not_here) ∙ e))
]

-- Nothing is found where nothing is.
pub find_from-none :
    (n i : ℕ) (name : List ℕ) (es : ℕ → IndexEntry)
    → find_from n i name es ≡ none
    → (j : ℕ) → i ≤ j
    → j < i + n
    → hit name es j ≡ false
find_from-none zero i name es e j low high = absurd (omega arith)
find_from-none (suc n) i name es e j low high = elim (Bool-cases (hit name es i)) [
  | inl here ↦ let found = sym (step_hit n i name es here) ∙ e in cc
  | inr miss ↦ elim (ℕ_discrete j i) [
    | yes same ↦ rw same miss
    | no other ↦
        find_from-none n (i + 1) name es (sym (step_miss n i name es miss) ∙ e) j (omega arith)
          (omega arith)
  ]
]

pub find_from_first :
    (n i : ℕ) (name : List ℕ) (es : ℕ → IndexEntry) (k : ℕ)
    → k < i + n
    → IsFirst name es i k
    → find_from n i name es ≡ some k
find_from_first zero i name es k lt f = absurd (omega (arith, f.from))
find_from_first (suc n) i name es k lt f = elim (ℕ_discrete i k) [
  | yes same ↦ step_hit n i name es (rw same f.match_lem) ∙ ap some same
  | no other ↦
      let from = f.from in
      step_miss n i name es (f.earlier i (omega arith) (omega arith))
      ∙ find_from_first n (i + 1) name es k (omega arith) (record {
        from = omega arith;
        match_lem = f.match_lem;
        earlier = λ j low high. f.earlier j (omega arith) high;
      })
]
