-- ===== src/Events/Top.antt =====
-- The values of the parts of a top-level machine's event enumeration.
use fsm_lang.Base.{
  ℕ, suc, ◌+◌, ◌≡◌, refl, ◌∙◌, ap, arith, Bool, true, false, inl, inr, some, List, [], ◌∷◌, ◌++◌,
  map, if◌then◌else◌, length, length-append, Text, codes,
}
use fsm_lang.Events.{
  EventInfo, Own, MachineList, no_machines, machine, as_top, full_name, returns_events,
  has_machines, designation_name, assign_external_event_values,
}
use fsm_lang.Events.Enumerators.{Enumerator, plain, member, num_all_events, each_sub_enumerators}
use fsm_lang.Events.Values.{
  Values, declare, declare-append, declare-same_as, declare-next, declared_end, value_of_latest,
}
use fsm_lang.Events.Blocks.{push, event_names, size_list, each_block, EachLastLeaf, each_declared}
use fsm_lang.Events.Names.{
  each_sub_names, number, AllDeclared, Extends, AllDeclared-extend, number-append, push-AllDeclared,
  each_block-Extends, each_block-AllDeclared, length-each_sub_names, length-event_names,
}

-- `numAllEvents`, where `numEvents` has the value `n`.
abbrev pub all_value : MachineList → ℕ → ℕ
all_value subs n = if has_machines subs then suc n + size_list subs else n

module _ (o : Own) where
  abbrev pub own_name : Text → Text
  own_name = full_name (as_top o)

  abbrev pub after_events : MachineList → ℕ → Values → Values
  after_events subs n vs =
      (own_name (codes "numAllEvents"), all_value subs n)
      ∷ each_block subs (as_top o) (suc n) ((own_name (codes "numEvents"), n) ∷ vs)

  -- `noEvent`, where there is one; the names behind the events; `numAllEvents`, where it is one more.
  abbrev pub cap_names : List Text
  cap_names = if returns_events o then own_name (codes "noEvent") ∷ [] else []

  abbrev pub last_names : MachineList → List Text
  last_names subs = if has_machines subs then own_name (codes "numAllEvents") ∷ [] else []

  abbrev pub names_behind : MachineList → List Text
  names_behind subs =
      cap_names
      ++ (own_name (codes "numEvents") ∷ (each_sub_names subs (as_top o) ++ last_names subs))

  -- The machine's events, and the names behind them.
  abbrev pub all_names : MachineList → List Text
  all_names subs = event_names (as_top o) o.event_list ++ names_behind subs

  pub length-all_names :
      (subs : MachineList)
      → length (all_names subs)
        ≡ length o.event_list + length cap_names + suc (size_list subs + length (last_names subs))
  length-all_names subs = omega (
    arith,
    length-append (event_names (as_top o) o.event_list) (names_behind subs),
    length-append cap_names
        (own_name (codes "numEvents") ∷ (each_sub_names subs (as_top o) ++ last_names subs)),
    length-append (each_sub_names subs (as_top o)) (last_names subs),
    length-event_names (as_top o) o.event_list,
    length-each_sub_names subs (as_top o),
  )

  last_declared :
      (subs : MachineList) (n : ℕ) (vs : Values)
      → AllDeclared
          (number (suc n + length (each_sub_names subs (as_top o))) (last_names subs))
          (after_events subs n vs)
  last_declared no_machines n vs = tt
  last_declared (machine m rest) n vs = (
    inl (
        ap (λ (k : ℕ). (own_name (codes "numAllEvents"), suc n + k))
          (length-each_sub_names (machine m rest) (as_top o))),
    tt,
  )

  pub behind_AllDeclared :
      (subs : MachineList) (k : ℕ) (vs : Values)
      → AllDeclared
          (number k (names_behind subs))
          (after_events subs (k + length cap_names) (push k cap_names vs))
  behind_AllDeclared subs k vs =
      let n : ℕ = k + length cap_names in
      let here : Values = (own_name (codes "numEvents"), n) ∷ push k cap_names vs in
      let inner : Values = each_block subs (as_top o) (suc n) here in
      let all : Values = after_events subs n (push k cap_names vs) in
      let grow : Extends here all =
        λ x h. inr (each_block-Extends subs (as_top o) (suc n) here x h) in
      number-append cap_names
        (own_name (codes "numEvents") ∷ (each_sub_names subs (as_top o) ++ last_names subs)) k all
        (AllDeclared-extend (number k cap_names) (push k cap_names vs) all (λ x h. grow x (inr h))
          (push-AllDeclared cap_names k vs))
        (
          grow (own_name (codes "numEvents"), n) (inl refl),
          number-append (each_sub_names subs (as_top o)) (last_names subs) (suc n) all
              (AllDeclared-extend (number (suc n) (each_sub_names subs (as_top o))) inner all
                (λ x h. inr h) (each_block-AllDeclared subs (as_top o) (suc n) here))
              (last_declared subs n (push k cap_names vs)),
        )

module _ (external : Text → ℕ) (o : Own) where
  pub ends_declared :
      (subs : MachineList) (n : ℕ) (vs : Values)
      → EachLastLeaf subs
      → declare external
          (each_sub_enumerators subs (as_top o) ++ (num_all_events o subs ∷ []))
          (suc n)
          ((own_name o (codes "numEvents"), n) ∷ vs)
        ≡ some (suc (all_value subs n), after_events o subs n vs)
  ends_declared no_machines n vs h =
      declare-same_as external (own_name o (codes "numAllEvents")) (own_name o (codes "numEvents"))
        [] (suc n) n ((own_name o (codes "numEvents"), n) ∷ vs)
        (value_of_latest (own_name o (codes "numEvents")) n vs)
      ∙ declared_end external (suc n) (suc n) (after_events o no_machines n vs) refl
  ends_declared (machine m rest) n vs h =
      let here : Values = (own_name o (codes "numEvents"), n) ∷ vs in
      let inner : Values = each_block (machine m rest) (as_top o) (suc n) here in
      let k : ℕ = suc n + size_list (machine m rest) in
      declare-append external (each_sub_enumerators (machine m rest) (as_top o))
        (num_all_events o (machine m rest) ∷ []) (suc n) k here inner
        (each_declared external (machine m rest) (as_top o) (suc n) here h)
      ∙ declare-next external (own_name o (codes "numAllEvents")) [] k inner
      ∙ declared_end external (suc k) (suc k) (after_events o (machine m rest) n vs) refl

  abbrev pub push_designated : List EventInfo → Values → Values
  push_designated [] vs = vs
  push_designated (e ∷ es) vs =
      push_designated es ((own_name o e.name, external (designation_name e)) ∷ vs)

  push_designated-Extends : (es : List EventInfo) (vs : Values) → Extends vs (push_designated es vs)
  push_designated-Extends [] vs x h = h
  push_designated-Extends (e ∷ es) vs x h =
      push_designated-Extends es ((own_name o e.name, external (designation_name e)) ∷ vs) x (inr h)

  pub push_designated-AllDeclared :
      (es : List EventInfo) (vs : Values)
      → AllDeclared
          (map (λ e. (own_name o e.name, external (designation_name e))) es)
          (push_designated es vs)
  push_designated-AllDeclared [] vs = tt
  push_designated-AllDeclared (e ∷ es) vs =
      let here : Values = (own_name o e.name, external (designation_name e)) ∷ vs in
      (
        push_designated-Extends es here (own_name o e.name, external (designation_name e))
            (inl refl),
        push_designated-AllDeclared es here,
      )

module _ (external : Text → ℕ) (compact : Bool) (o : Own) where
  -- The values of the events themselves: their designations', where these are used.
  abbrev pub own_values : Values
  own_values =
      if assign_external_event_values compact o
      then map (λ e. (own_name o e.name, external (designation_name e))) o.event_list
      else number 0 (event_names (as_top o) o.event_list)

  pub designated_declared :
      (es : List EventInfo) (next : ℕ) (vs : Values)
      → assign_external_event_values compact o ≡ true
      → (next' : ℕ) × (declare external (map (member compact o) es) next vs
          ≡ some (next', push_designated external o es vs))
  unfolding declare
  designated_declared [] next vs h = (next, refl)
  designated_declared (e ∷ es) next vs h =
      let (next', d) =
        designated_declared es (suc (external (designation_name e)))
          ((own_name o e.name, external (designation_name e)) ∷ vs) h in
      (next', rw (h, declare) d)

module _ (compact : Bool) (o : Own) where
  pub members_plain :
      (es : List EventInfo)
      → assign_external_event_values compact o ≡ false
      → map (member compact o) es ≡ map (plain (as_top o)) es
  members_plain [] h = refl
  members_plain (e ∷ es) h =
      rw h (ap (λ (xs : List Enumerator). plain (as_top o) e ∷ xs) (members_plain es h))
