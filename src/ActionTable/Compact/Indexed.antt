-- ===== src/ActionTable/Compact/Indexed.antt =====
-- The enumerators of a compact array are the positions of their functions.
use mathlib.Core.Path.{ap₂}
use fsm_lang.Base.{
  ℕ, zero, suc, ◌≡◌, refl, arith, true, false, Bool, some, get_elem?, length, length-map, ◌+◌, List,
  [], ◌∷◌, ◌++◌, map, append_assoc, append-nil, if◌then◌else◌, Text, codes, ap, ◌∙◌, sym,
  Bool-cases, inl, inr,
}
use fsm_lang.Sequence.{iterate, iterate-on}
use fsm_lang.ActionArray.{has_text}
use fsm_lang.ActionTable.Compact.{
  Out, write_member, started, enum_open, array_open, declare_action_enum_member,
  declare_action_array_member, declare_transition_fn_enum_member, declare_transition_enum_member,
  define_transition_fn_array_member, define_transition_array_member, declare_action_fn_enum,
  define_action_fn_array, declare_transition_fn_enum, define_transition_fn_array,
}

-- Members one to a line, parted by commas.
abbrev pub members : Text → Bool → List Text → Text
members before first [] = []
members before first (x ∷ xs) =
    before
    ++ (if first then codes "  " else codes ", ")
    ++ x
    ++ codes "\n"
    ++ members before false xs

abbrev pub named : List Text → List Text
named [] = []
named (x ∷ xs) = if has_text x then x ∷ named xs else named xs

abbrev still_first : Bool → List Text → Bool
still_first first [] = first
still_first first (x ∷ xs) = false

still_first-false : (xs : List Text) → still_first false xs ≡ false
still_first-false [] = refl
still_first-false (x ∷ xs) = refl

regroup : (s b c m n r : Text) → s ++ b ++ c ++ m ++ n ++ r ≡ s ++ (b ++ c ++ m ++ n ++ r)
regroup s b c m n r = simp append_assoc refl

abbrev out : Text → Bool → Out
out t b = record { fout = t; first = b }

iterate-members :
    (before : Text) (member : Text → Text) (f : Text → Out → Bool × Out)
    → ((x : Text) (o : Out) → f x o ≡ (false, write_member before (member x) o))
    → (xs : List Text) (s : Text) (first : Bool)
    → iterate f xs (record { fout = s; first = first })
      ≡ record { fout = s ++ members before first (map member xs); first = still_first first xs }
unfolding iterate
iterate-members before member f writes [] s first = rw append-nil refl
iterate-members before member f writes (x ∷ xs) s first =
    let comma : Text = if first then codes "  " else codes ", " in
    let here : Text = s ++ before ++ comma ++ member x ++ codes "\n" in
    let start : Out = record { fout = s; first = first } in
    let next : Out = record { fout = here; first = false } in
    let writes_here : f x start ≡ (false, next) = writes x start in
    iterate-on f x xs start (ap (λ (r : Bool × Out). r.0) writes_here)
    ∙ ap (λ (r : Bool × Out). iterate f xs r.1) writes_here
    ∙ iterate-members before member f writes xs here false
    ∙ ap₂ out
        (regroup s before comma (member x) (codes "\n") (members before false (map member xs)))
        (still_first-false xs)

still_first-map :
    (f : Text → Text) (first : Bool) (xs : List Text)
    → still_first first xs ≡ still_first first (map f xs)
still_first-map f first [] = refl
still_first-map f first (x ∷ xs) = refl

-- The two iterators over actions pass over those without a name.
iterate-named :
    (before : Text) (member : Text → Text) (f : Text → Out → Bool × Out)
    → ((x : Text) (o : Out)
        → f x o ≡ (false, if has_text x then write_member before (member x) o else o))
    → (xs : List Text) (o : Out)
    → iterate f xs o
      ≡ iterate (λ (x : Text) (q : Out). (false, write_member before (member x) q)) (named xs) o
unfolding iterate
iterate-named before member f writes [] o = refl
iterate-named before member f writes (x ∷ xs) o =
    iterate-on f x xs o (ap (λ (r : Bool × Out). r.0) (writes x o))
    ∙ ap (λ (r : Bool × Out). iterate f xs r.1) (writes x o)
    ∙ iterate-named before member f writes xs
        (if has_text x then write_member before (member x) o else o)
    ∙ elim (Bool-cases (has_text x)) [
      | inl some_text ↦ rw some_text refl
      | inr no_text ↦ rw no_text refl
    ]

written :
    (before : Text) (member : Text → Text) (f : Text → Out → Bool × Out)
    → ((x : Text) (o : Out)
        → f x o ≡ (false, if has_text x then write_member before (member x) o else o))
    → (xs : List Text) (s : Text)
    → (iterate f xs (started s)).fout ≡ s ++ members before true (map member (named xs))
written before member f writes xs s =
    ap (λ (o : Out). o.fout)
      (iterate-named before member f writes xs (started s)
        ∙ iterate-members before member
            (λ (x : Text) (q : Out). (false, write_member before (member x) q)) (λ x o. refl)
            (named xs) s true)

members-append :
    (before : Text) (first : Bool) (xs ys : List Text)
    → members before first xs ++ members before (still_first first xs) ys
      ≡ members before first (xs ++ ys)
members-append before first [] ys = refl
members-append before first (x ∷ xs) ys =
    let comma : Text = if first then codes "  " else codes ", " in
    append_assoc (before ++ comma ++ x ++ codes "\n") (members before false xs)
      (members before false ys)
    ∙ ap (λ (t : Text). before ++ comma ++ x ++ codes "\n" ++ t)
        (ap (λ (b : Bool). members before false xs ++ members before b ys)
            (sym (still_first-false xs))
          ∙ members-append before false xs ys)

get_elem?-map :
    (f : Text → Text) (xs : List Text) (i : ℕ) (x : Text)
    → get_elem? xs i ≡ some x
    → get_elem? (map f xs) i ≡ some (f x)
get_elem?-map f [] i x h = cc
get_elem?-map f (y ∷ xs) zero x h = let same : y ≡ x = cc in ap (λ (z : Text). some (f z)) same
get_elem?-map f (y ∷ xs) (suc i) x h = get_elem?-map f xs i x h

abbrev pub action_enumerator : Text → Text → Text
action_enumerator fq a = fq ++ codes "_" ++ a ++ codes "_e"

abbrev pub user_function : Text → Text
user_function a = codes "UFMN(" ++ a ++ codes ")"

-- For a compact action array, the enumeration of the actions and the array of action functions both
-- have a member for each action with a name, in the same order and parted by commas: the enumerator
-- of an action stands at the position of its function.
pub action_fns-indexed :
    (fq_machine_name type : Text) (actions : List Text)
    → let enumerators : List Text = map (action_enumerator fq_machine_name) (named actions) in
      let functions : List Text = map user_function (named actions) in
      (declare_action_fn_enum fq_machine_name type actions
        ≡ enum_open
          ++ members [] true enumerators
          ++ codes ", THIS(noAction_e)\n"
          ++ codes "} __attribute__((__packed__)) "
          ++ type
          ++ codes "_E;\n\n")
      × (define_action_fn_array type actions
          ≡ array_open type (codes "THIS(action_fns)")
            ++ members (codes "\t") true functions
            ++ codes "\t,  THIS(noAction)\n};\n\n")
      × ((i : ℕ) (a : Text)
          → get_elem? (named actions) i ≡ some a
          → (get_elem? enumerators i ≡ some (action_enumerator fq_machine_name a))
            × (get_elem? functions i ≡ some (user_function a)))
unfolding declare_action_fn_enum define_action_fn_array declare_action_enum_member
    declare_action_array_member
action_fns-indexed fq_machine_name type actions = (
  ap
      (λ (t : Text).
        t
        ++ codes ", THIS(noAction_e)\n"
        ++ codes "} __attribute__((__packed__)) "
        ++ type
        ++ codes "_E;\n\n")
      (written [] (action_enumerator fq_machine_name) (declare_action_enum_member fq_machine_name)
        (λ x o. refl) actions enum_open),
  ap (λ (t : Text). t ++ codes "\t,  THIS(noAction)\n};\n\n")
      (written (codes "\t") user_function declare_action_array_member (λ x o. refl) actions
        (array_open type (codes "THIS(action_fns)"))),
  λ i a h. (
    get_elem?-map (action_enumerator fq_machine_name) (named actions) i a h,
    get_elem?-map user_function (named actions) i a h,
  ),
)

-- Two lists of members one behind the other.
two_lists :
    (before : Text) (f g : Text → Text) (p q : Text → Out → Bool × Out)
    → ((x : Text) (o : Out) → p x o ≡ (false, write_member before (f x) o))
    → ((x : Text) (o : Out) → q x o ≡ (false, write_member before (g x) o))
    → (xs ys : List Text) (s : Text)
    → (iterate q ys (iterate p xs (started s))).fout
      ≡ s ++ members before true (map f xs ++ map g ys)
two_lists before f g p q writes_f writes_g xs ys s =
    ap (λ (o : Out). (iterate q ys o).fout) (iterate-members before f p writes_f xs s true)
    ∙ ap (λ (o : Out). o.fout)
        (iterate-members before g q writes_g ys (s ++ members before true (map f xs))
          (still_first true xs))
    ∙ append_assoc s (members before true (map f xs))
        (members before (still_first true xs) (map g ys))
    ∙ ap (λ (b : Bool). s ++ (members before true (map f xs) ++ members before b (map g ys)))
        (still_first-map f true xs)
    ∙ ap (λ (t : Text). s ++ t) (members-append before true (map f xs) (map g ys))

get_elem?-left :
    (xs ys : List Text) (i : ℕ) (x : Text)
    → get_elem? xs i ≡ some x
    → get_elem? (xs ++ ys) i ≡ some x
get_elem?-left [] ys i x h = cc
get_elem?-left (y ∷ xs) ys zero x h = h
get_elem?-left (y ∷ xs) ys (suc i) x h = get_elem?-left xs ys i x h

get_elem?-right :
    (xs ys : List Text) (n i : ℕ) (x : Text)
    → length xs ≡ n
    → get_elem? ys i ≡ some x
    → get_elem? (xs ++ ys) (n + i) ≡ some x
get_elem?-right [] ys n i x k h =
    let same : n + i ≡ i = omega (arith, k) in ap (λ (j : ℕ). get_elem? ys j) same ∙ h
get_elem?-right (y ∷ xs) ys zero i x k h = let never : ⊥ = omega (arith, k) in elim never [ ]
get_elem?-right (y ∷ xs) ys (suc n) i x k h =
    let same : suc n + i ≡ suc (n + i) = omega arith in
    ap (λ (j : ℕ). get_elem? (y ∷ (xs ++ ys)) j) same
    ∙ get_elem?-right xs ys n i x (omega (arith, k)) h

abbrev pub fn_enumerator : Text → Text
fn_enumerator t = codes "UFMN(" ++ t ++ codes "_e)"

abbrev pub state_enumerator : Text → Text
state_enumerator t = codes "UFMN(transitionTo" ++ t ++ codes "_e)"

abbrev pub state_function : Text → Text → Text
state_function fq t = fq ++ codes "_transitionTo" ++ t

-- For a compact action array, the enumeration of the transitions and the array of transition
-- functions both have the transition functions and behind them the states, in the same order and
-- parted by commas: the enumerator of each stands at the position of its function.
pub transition_fns-indexed :
    (fq_machine_name type : Text) (fns states : List Text)
    → let enumerators : List Text = map fn_enumerator fns ++ map state_enumerator states in
      let functions : List Text =
        map user_function fns ++ map (state_function fq_machine_name) states in
      (declare_transition_fn_enum type fns states
        ≡ enum_open
          ++ members [] true enumerators
          ++ codes ", THIS(noTransition_e)\n"
          ++ codes "} __attribute__ (( __packed__ )) "
          ++ type
          ++ codes "_E;\n\n")
      × (define_transition_fn_array fq_machine_name type fns states
          ≡ array_open type (fq_machine_name ++ codes "_transition_fns")
            ++ members (codes "\t") true functions
            ++ codes "\t, "
            ++ fq_machine_name
            ++ codes "_noTransitionFn\n"
            ++ codes "};\n\n")
      × ((i : ℕ) (t : Text)
          → get_elem? fns i ≡ some t
          → (get_elem? enumerators i ≡ some (fn_enumerator t))
            × (get_elem? functions i ≡ some (user_function t)))
      × ((i : ℕ) (t : Text)
          → get_elem? states i ≡ some t
          → (get_elem? enumerators (length fns + i) ≡ some (state_enumerator t))
            × (get_elem? functions (length fns + i) ≡ some (state_function fq_machine_name t)))
unfolding declare_transition_fn_enum define_transition_fn_array declare_transition_fn_enum_member
    declare_transition_enum_member define_transition_fn_array_member define_transition_array_member
transition_fns-indexed fq_machine_name type fns states = (
  ap
      (λ (t : Text).
        t
        ++ codes ", THIS(noTransition_e)\n"
        ++ codes "} __attribute__ (( __packed__ )) "
        ++ type
        ++ codes "_E;\n\n")
      (two_lists [] fn_enumerator state_enumerator declare_transition_fn_enum_member
        declare_transition_enum_member (λ x o. refl) (λ x o. refl) fns states enum_open),
  ap
      (λ (t : Text).
        t ++ codes "\t, " ++ fq_machine_name ++ codes "_noTransitionFn\n" ++ codes "};\n\n")
      (two_lists (codes "\t") user_function (state_function fq_machine_name)
        define_transition_fn_array_member (define_transition_array_member fq_machine_name)
        (λ x o. refl) (λ x o. refl) fns states
        (array_open type (fq_machine_name ++ codes "_transition_fns"))),
  λ i t h. (
    get_elem?-left (map fn_enumerator fns) (map state_enumerator states) i (fn_enumerator t)
        (get_elem?-map fn_enumerator fns i t h),
    get_elem?-left (map user_function fns) (map (state_function fq_machine_name) states) i
        (user_function t) (get_elem?-map user_function fns i t h),
  ),
  λ i t h. (
    get_elem?-right (map fn_enumerator fns) (map state_enumerator states) (length fns) i
        (state_enumerator t) (length-map fn_enumerator fns)
        (get_elem?-map state_enumerator states i t h),
    get_elem?-right (map user_function fns) (map (state_function fq_machine_name) states)
        (length fns) i (state_function fq_machine_name t) (length-map user_function fns)
        (get_elem?-map (state_function fq_machine_name) states i t h),
  ),
)
