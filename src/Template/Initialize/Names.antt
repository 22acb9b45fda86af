-- ===== src/Template/Initialize/Names.antt =====
-- The names that `hcv_initialize_templates` (hcv_template.cc) gives to its expanders.
use mathlib.Core.Bool.{false}
use helpcovid.Template.Registry.Names.{valid_register, is_template_name}
use helpcovid.Outcome.{ok}
use helpcovid.Template.Registry.{Expander}
use helpcovid.Template.Expanders.{expand_gitid, Env}
use helpcovid.Template.Initialize.{
  registrations, ok, Expander, Env, register_all, initialize_templates,
}
use helpcovid.Dict.{lookup-insert, insert, or_else, Dict, lookup}
use helpcovid.Cstr.{is_alpha, is_word}
use helpcovid.Prelude.{
  if◌then◌else◌, ◌∙◌, and-eq-true, ◌∷◌, sym, refl, Option, none, some, codes, true, all, ◌≡◌, [],
  Bool, equal, Bytes, List,
}

abbrev valid_names : List (Bytes × Expander) → Bool
valid_names = all (λ r. is_template_name r.0)

or_else-none {ℓ} : {A : Type ℓ} (o : Option A) → or_else o none ≡ o
or_else-none none = refl
or_else-none (some a) = refl

or_else-if {ℓ} :
    {A : Type ℓ} (o q : Option A) (b : Bool) (a : A)
    → or_else (or_else o (if b then some a else none)) q ≡ or_else o (if b then some a else q)
or_else-if none q true a = refl
or_else-if none q false a = refl
or_else-if (some x) q b a = refl

register_all-lookup :
    (regs : List (Bytes × Expander)) (dict : Dict Expander)
    → valid_names regs ≡ true
    → (dict' : Dict Expander) × (register_all regs dict ≡ ok dict')
      × ((k : Bytes) → lookup k dict' ≡ or_else (lookup k dict) (lookup k regs))
unfolding register_all lookup
register_all-lookup [] dict h = (dict, refl, λ k. sym (or_else-none _))
register_all-lookup ((name, clos) ∷ regs) dict h =
    let (valid, rest) = and-eq-true (is_template_name name) _ h in
    let (dict', e, all_names) = register_all-lookup regs (insert name clos dict) rest in
    let first = valid_register name clos dict valid in
    (
      dict',
      rw (first, register_all) e,
      λ k.
          rw (lookup-insert name k clos dict) at (all_names k)
          ∙ or_else-if (lookup k dict) (lookup k regs) (equal name k) clos,
    )

-- `hcv_initialize_templates` returns, whatever was registered before. Behind it a name finds the
-- expander that it found before, or else the first one that the function registers under it.
pub initialize_templates-lookup :
    (env : Env) (dict : Dict Expander)
    → (dict' : Dict Expander) × (initialize_templates env dict ≡ ok dict')
      × ((k : Bytes) → lookup k dict' ≡ or_else (lookup k dict) (lookup k (registrations env)))
unfolding initialize_templates is_alpha is_word
initialize_templates-lookup env dict = register_all-lookup (registrations env) dict refl

-- From an empty dictionary, `gitid` is the expander of the git identifier, and there is none under
-- `lastgitcommit`.
pub initialize_templates-lastgitcommit :
    (env : Env)
    → (dict : Dict Expander) × (initialize_templates env [] ≡ ok dict)
      × (lookup (codes "gitid") dict ≡ some (expand_gitid env))
      × (lookup (codes "lastgitcommit") dict ≡ none)
unfolding lookup equal registrations
initialize_templates-lastgitcommit env =
    let (dict, e, found) = initialize_templates-lookup env [] in
    (dict, e, found (codes "gitid"), found (codes "lastgitcommit"))
