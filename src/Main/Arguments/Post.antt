-- ===== src/Main/Arguments/Post.antt =====
-- What holds of the state after an option, when the parser knows the option and returns.
use mathlib.Core.List.{[]}
use mathlib.Core.Option.{none}
use helpcovid.Prelude.{refl, none, ◌∷◌, arith, some, ◌≡◌, Bytes}
use helpcovid.Outcome.{thrown, ◌>>=◌, Outcome}
use helpcovid.Main.Arguments.{
  fatal, List, some, parse1opt, ok, Bytes, ProgOption, Option, System, Outcome, parse_options,
  Program,
}

abbrev pub Post : (P : Program → Type 0) → Outcome (Option Program) → Type 0
Post P (ok none) = Unit
Post P (ok (some q)) = P q
Post P (fatal fil lin) = Unit
Post P (thrown fil lin) = Unit

pub Post->>= {ℓ} :
    {X : Type ℓ} (P : Program → Type 0) (m : Outcome X) (f : X → Outcome (Option Program))
    → ((x : X) → m ≡ ok x → Post P (f x))
    → Post P (m >>= f)
Post->>= P (ok x) f h = h x refl
Post->>= P (fatal fil lin) f h = tt
Post->>= P (thrown fil lin) f h = tt

pub Post-ok :
    (P : Program → Type 0) (m : Outcome (Option Program)) {q : Program}
    → Post P m
    → m ≡ ok (some q)
    → P q
Post-ok P (ok none) h e = ground (arith, e)
Post-ok P (ok (some a)) {q} h e = let same : a ≡ q = ground (arith, e) in rw (← same) h
Post-ok P (fatal fil lin) h e = ground (arith, e)
Post-ok P (thrown fil lin) h e = ground (arith, e)

-- A property of the state, and of the options that are left, which each option keeps is kept by the
-- options of a command line.
pub parse_options-Post :
    (sys : System) (P : List (ProgOption × Bytes) → Program → Type 0)
    → ((key : ProgOption) (arg : Bytes) (rest : List (ProgOption × Bytes)) (p : Program)
        → P ((key, arg) ∷ rest) p
        → Post (P rest) (parse1opt sys key arg p))
    → (options : List (ProgOption × Bytes)) (p : Program) → P options p
    → Post (P []) (parse_options sys options p)
unfolding parse_options
parse_options-Post sys P step [] p h = h
parse_options-Post sys P step ((key, arg) ∷ rest) p h =
    Post->>= (P []) (parse1opt sys key arg p)
      (λ parsed. elim parsed [ none ↦ ok none | some after ↦ parse_options sys rest after ])
      (λ parsed.
        elim parsed
          as (λ k.
            parse1opt sys key arg p ≡ ok k
            → Post (P []) (elim k as (λ _. Outcome (Option Program)) [
              | none ↦ ok none
              | some after ↦ parse_options sys rest after
            ])) [
              | none ↦ λ returned. tt
              | some after ↦ λ returned.
                  parse_options-Post sys P step rest after
                    (Post-ok (P rest) (parse1opt sys key arg p) (step key arg rest p h) returned)
            ])
