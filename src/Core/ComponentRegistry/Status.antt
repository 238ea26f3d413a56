-- ===== src/Core/ComponentRegistry/Status.antt =====
-- What the overall status says of the components by their names.
use okf_mcp_rs.Prelude.{
  ◌≡◌, ◌↔◌, refl, sym, subst, ◌∙◌, Bool, true, false, Text, text_eq, text_eq_iff, text_eq_refl,
  none, some, List, [], ◌∷◌, map, any, All, ap, arith, Bool-cases, inl, inr, eq_of_some,
}
use okf_mcp_rs.Prelude.Assoc.{Assoc, lookup, insert, lookup-insert}
use okf_mcp_rs.Core.ComponentRegistry.{
  critical_or_false, healthy, unhealthy, ComponentState, ComponentRegistry, new, register, report,
  is_fatal, is_impaired, snapshot, overall_status, Call, registers, reports, apply, run,
}

-- No name is bound twice.
abbrev pub IsDistinct : Assoc ComponentState → Type 0
IsDistinct [] = Unit
IsDistinct ((k, c) ∷ m) = (lookup k m ≡ none) × IsDistinct m

insert-IsDistinct :
    (k : Text) (c : ComponentState) (m : Assoc ComponentState)
    → IsDistinct m
    → IsDistinct (insert k c m)
unfolding insert lookup
insert-IsDistinct k c [] h = (refl, tt)
insert-IsDistinct k c ((j, d) ∷ m) h = elim (Bool-cases (text_eq j k)) [
  | inl e ↦ rw e (subst (λ i. lookup i m ≡ none) ((text_eq_iff j k).0 e) h.0, h.1)
  | inr ne ↦ rw ne (
    ground (arith, lookup-insert k j c m, text_eq_iff j k, text_eq_iff k j, h.0),
    insert-IsDistinct k c m h.1,
  )
]

run-IsDistinct :
    (r : ComponentRegistry) (calls : List Call)
    → IsDistinct r.components
    → IsDistinct (run r calls).components
unfolding run apply register report
run-IsDistinct r [] h = h
run-IsDistinct r (registers name critical ∷ calls) h =
    run-IsDistinct (register r name critical) calls (insert-IsDistinct name _ r.components h)
run-IsDistinct r (reports name status error now ∷ calls) h =
    run-IsDistinct (report r name status error now) calls (insert-IsDistinct name _ r.components h)

-- A component of the registry, by its name, that passes a test.
abbrev pub Has : (ComponentState → Bool) → Assoc ComponentState → Type 0
Has p m = (name : Text) × (c : ComponentState) × (lookup name m ≡ some c) × (p c ≡ true)

lookup_later :
    (k name : Text) (c d : ComponentState) (m : Assoc ComponentState)
    → lookup k m ≡ none
    → lookup name m ≡ some d
    → lookup name ((k, c) ∷ m) ≡ some d
unfolding lookup
lookup_later k name c d m n l = elim (Bool-cases (text_eq k name)) [
  | inl e ↦ absurd (never ((text_eq_iff k name).0 e))
  | inr ne ↦ rw ne l
]
  where
    never : k ≡ name → ⊥
    never e = cc

any-Has :
    (p : ComponentState → Bool) (m : Assoc ComponentState)
    → IsDistinct m
    → any p (map (λ entry. entry.1) m) ≡ true
    → Has p m
unfolding lookup
any-Has p [] h a = absurd cc
any-Has p ((k, c) ∷ m) h a = elim (Bool-cases (p c)) [
  | inl yes_c ↦ (k, c, rw (text_eq_refl k) refl, yes_c)
  | inr no_c ↦
      let (name, d, l, q) = any-Has p m h.1 (rw no_c at a) in
      (name, d, lookup_later k name c d m h.0 l, q)
]

Has-any :
    (p : ComponentState → Bool) (m : Assoc ComponentState)
    → Has p m
    → any p (map (λ entry. entry.1) m) ≡ true
unfolding lookup
Has-any p [] (name, c, l, q) = absurd cc
Has-any p ((k, d) ∷ m) (name, c, l, q) = elim (Bool-cases (text_eq k name)) [
  | inl e ↦
      let same : d ≡ c = eq_of_some (rw e at l) in rw (subst (λ x. p x ≡ true) (sym same) q) refl
  | inr ne ↦
      let rest = Has-any p m (name, c, rw ne at l, q) in
      elim (Bool-cases (p d)) [ inl y ↦ rw y refl | inr n ↦ rw n rest ]
]

components_of-IsDistinct : (calls : List Call) → IsDistinct (run new calls).components
components_of-IsDistinct calls = run-IsDistinct new calls tt

unhealthy_iff :
    (r : ComponentRegistry) → (overall_status r ≡ unhealthy) ↔ (any is_fatal (snapshot r) ≡ true)
unfolding overall_status
unhealthy_iff r = ground arith

-- After any registrations and reports the server is unhealthy exactly if, by its name, some critical
-- component is unhealthy.
pub overall_status_unhealthy_iff :
    (calls : List Call)
    → (overall_status (run new calls) ≡ unhealthy) ↔ Has is_fatal (run new calls).components
unfolding snapshot
overall_status_unhealthy_iff calls =
    let r = run new calls in
    (
      λ e. any-Has is_fatal r.components (components_of-IsDistinct calls) ((unhealthy_iff r).0 e),
      λ h. (unhealthy_iff r).1 (Has-any is_fatal r.components h),
    )

fatal_impaired : (c : ComponentState) → is_fatal c ≡ true → is_impaired c ≡ true
fatal_impaired c h = ground arith

healthy_if :
    (r : ComponentRegistry)
    → any is_fatal (snapshot r) ≡ false
    → any is_impaired (snapshot r) ≡ false
    → overall_status r ≡ healthy
unfolding overall_status
healthy_if r f i = ground arith

not_healthy :
    (r : ComponentRegistry) → any is_impaired (snapshot r) ≡ true → overall_status r ≡ healthy → ⊥
unfolding overall_status
not_healthy r i h = ground arith

-- After any registrations and reports the server is healthy exactly if no component, critical or
-- not, is degraded or unhealthy.
pub overall_status_healthy_iff :
    (calls : List Call)
    → (overall_status (run new calls) ≡ healthy) ↔ (Has is_impaired (run new calls).components → ⊥)
unfolding snapshot
overall_status_healthy_iff calls =
    let r = run new calls in
    let d = components_of-IsDistinct calls in
    (
      λ e h. not_healthy r (Has-any is_impaired r.components h) e,
      λ n. elim (Bool-cases (any is_impaired (snapshot r))) [
        | inl i ↦ absurd (n (any-Has is_impaired r.components d i))
        | inr no_i ↦ elim (Bool-cases (any is_fatal (snapshot r))) [
          | inl f ↦
              let (name, c, l, q) = any-Has is_fatal r.components d f in
              absurd (n (name, c, l, fatal_impaired c q))
          | inr no_f ↦ healthy_if r no_f no_i
        ]
      ],
    )

-- The call does not register the name.
abbrev pub Spares : Text → Call → Type 0
Spares name (registers other critical) = text_eq other name ≡ false
Spares name (reports other status error now) = Unit

apply-critical :
    (name : Text) (r : ComponentRegistry) (call : Call)
    → Spares name call
    → critical_or_false (lookup name (apply r call).components)
      ≡ critical_or_false (lookup name r.components)
unfolding apply register report
apply-critical name r (registers other critical) s = rw (lookup-insert, s) refl
apply-critical name r (reports other status error now) s = elim (Bool-cases (text_eq other name)) [
  | inl e ↦
      rw (lookup-insert, e)
        (ap (λ k. critical_or_false (lookup k r.components)) ((text_eq_iff other name).0 e))
  | inr ne ↦ rw (lookup-insert, ne) refl
]

-- Reports, of this component or of others, and registrations of others never change whether a
-- component is critical.
pub run_keeps_critical :
    (name : Text) (r : ComponentRegistry) (calls : List Call)
    → All (Spares name) calls
    → critical_or_false (lookup name (run r calls).components)
      ≡ critical_or_false (lookup name r.components)
unfolding run
run_keeps_critical name r [] s = refl
run_keeps_critical name r (call ∷ calls) s =
    run_keeps_critical name (apply r call) calls s.1 ∙ apply-critical name r call s.0
