-- ===== src/Shortcuts/Setup/Numbered.antt =====
-- The numbers of the widgets, through the set-ups of a page.
use bluetooth_autonomous_car.Prelude.{
  ℕ, ◌≡◌, ◌≢◌, ◌↔◌, inl, inr, Bool, Bool-cases, true, false, ◌&&◌, arith, refl, sym, ap, subst, ◌∙◌,
  List, [], ◌∷◌, ◌++◌, Option, none, some, length, ℤ, get_elem?, All, All-append, append_assoc,
  append-nil,
}
use bluetooth_autonomous_car.Text.{Text, codes, same_text, includes}
use bluetooth_autonomous_car.Text.Same.{same_text_iff}
use bluetooth_autonomous_car.Text.Occurs.{Occurs, includes-Occurs}
use bluetooth_autonomous_car.SelectBox.{◌>>=◌}
use bluetooth_autonomous_car.Shortcuts.{Warning}
use bluetooth_autonomous_car.Shortcuts.Setup.{
  InputField, FieldKind, time_field, date_field, other_field, kind_of, ShortcutLinks, clock_links,
  calendar_links, Setup, ClockHours, HoursEntry, undefined, choices, inherited, hours_of,
  add_clock_links, add_calendar_links, set_warning, add_timezone_warning, init_field, init_fields,
  reinit,
}
use bluetooth_autonomous_car.Shortcuts.Setup.Wanted.{
  IsTime, IsDate, Offers, SetUpFor, none_left, a_clock, a_calendar, neither, SetUpFor-append,
  LeadsHome, Keeps, Keeps-append, LeadsHome-kept,
}

-- From the one to the other page, the links of these fields are added.
record IsSetUp (hours : ClockHours) (fields : List InputField) (s s' : Setup) : Type 0 where
  added : List ShortcutLinks
  links : s'.links ≡ s.links ++ added
  shows : SetUpFor hours fields added
  homes : All (LeadsHome s'.clock_inputs s'.calendar_inputs) added
  clocks : Keeps s.clock_inputs s'.clock_inputs
  calendars : Keeps s.calendar_inputs s'.calendar_inputs

at_end : (inputs : List ℕ) (f : ℕ) → get_elem? (inputs ++ (f ∷ [])) (length inputs) ≡ some f
at_end [] f = refl
at_end (g ∷ inputs) f = at_end inputs f

-- The test of a type and a class.
test_iff : (a b t c : Text) → (same_text a b && includes t c ≡ true) ↔ ((a ≡ b) × Occurs t c)
test_iff a b t c = (
  λ h.
      let (p, q) = both (same_text a b) (includes t c) h in
      ((same_text_iff a b).0 p, (includes-Occurs t c).0 q),
  λ (p, q). rw ((same_text_iff a b).1 p, (includes-Occurs t c).1 q) refl,
)
  where
    both : (x y : Bool) → (x && y) ≡ true → (x ≡ true) × (y ≡ true)
    both x y h = ground arith

module _ (hours : ClockHours) where
  nothing-IsSetUp : (s : Setup) → IsSetUp hours [] s s
  nothing-IsSetUp s = record {
    added = [];
    links = sym (append-nil s.links);
    shows = none_left;
    homes = tt;
    clocks = λ n f h. h;
    calendars = λ n f h. h;
  }

  set_warning-IsSetUp :
      (parent : ℕ) (w : Option Warning) (fields : List InputField) (s s' : Setup)
      → IsSetUp hours fields s s'
      → IsSetUp hours fields s (set_warning parent w s')
  unfolding set_warning
  set_warning-IsSetUp parent none fields s s' v = v
  set_warning-IsSetUp parent (some w) fields s s' v = record {
    added = v.added;
    links = v.links;
    shows = v.shows;
    homes = v.homes;
    clocks = v.clocks;
    calendars = v.calendars;
  }

  joined-IsSetUp :
      (fields fields' : List InputField) (s s' s'' : Setup)
      → IsSetUp hours fields s s'
      → IsSetUp hours fields' s' s''
      → IsSetUp hours (fields ++ fields') s s''
  joined-IsSetUp fields fields' s s' s'' v w = record {
    added = v.added ++ w.added;
    links = w.links ∙ ap (◌++ w.added) v.links ∙ append_assoc s.links v.added w.added;
    shows = SetUpFor-append v.shows w.shows;
    homes =
        All-append (LeadsHome s''.clock_inputs s''.calendar_inputs) v.added w.added
          (LeadsHome-kept s'.clock_inputs s''.clock_inputs s'.calendar_inputs s''.calendar_inputs
            v.added w.clocks w.calendars v.homes)
          w.homes;
    clocks = λ n f h. w.clocks n f (v.clocks n f h);
    calendars = λ n f h. w.calendars n f (v.calendars n f h);
  }

  offered :
      (name : Text)
      → hours.of_name name ≢ inherited
      → (l : List (Text × ℤ)) × (hours_of hours name ≡ some l) × Offers hours name l
  unfolding hours_of
  offered name h = by_entry (hours.of_name name) refl
    where
      by_entry :
          (e : HoursEntry)
          → hours.of_name name ≡ e
          → (l : List (Text × ℤ)) × (hours_of hours name ≡ some l) × Offers hours name l
      by_entry undefined e = (hours.default, rw (hours_of, e) refl, inr (e, refl))
      by_entry (choices l) e = (l, rw (hours_of, e) refl, inl e)
      by_entry inherited e = absurd (h e)

  module _ (offset : ℤ) where
    abbrev Ends : List InputField → Setup → Option Setup → Type 0
    Ends fields s r = (s' : Setup) × (r ≡ some s') × IsSetUp hours fields s s'

    by_kind : InputField → Setup → FieldKind → Option Setup
    by_kind f s time_field =
        add_clock_links hours f s >>= λ t. some (add_timezone_warning offset f t)
    by_kind f s date_field = some (add_timezone_warning offset f (add_calendar_links f s))
    by_kind f s other_field = some s

    init_field_lem :
        (f : InputField) (s : Setup) → init_field hours offset f s ≡ by_kind f s (kind_of f)
    unfolding init_field by_kind
    init_field_lem f s =
        elim (kind_of f)
          as (λ k.
            (elim k [
              | time_field ↦
                  (add_clock_links hours f s >>= λ t. some (add_timezone_warning offset f t))
              | date_field ↦ some (add_timezone_warning offset f (add_calendar_links f s))
              | other_field ↦ some s
            ])
            ≡ by_kind f s k) [ time_field ↦ refl | date_field ↦ refl | other_field ↦ refl ]

    clock-Ends :
        (f : InputField) (s : Setup)
        → IsTime f
        → hours.of_name f.name ≢ inherited
        → Ends (f ∷ []) s (by_kind f s time_field)
    unfolding by_kind add_clock_links add_timezone_warning
    clock-Ends f s is_time h =
        let (l, e, o) = offered f.name h in
        let t = record s {
          clock_inputs = s.clock_inputs ++ (f.number ∷ []);
          links = s.links ++ (clock_links (length s.clock_inputs) f.number l ∷ []);
        } in
        (
          add_timezone_warning offset f t,
          rw e refl,
          set_warning-IsSetUp f.parent _ (f ∷ []) s _ (record {
            added = clock_links (length s.clock_inputs) f.number l ∷ [];
            links = refl;
            shows = a_clock f (length s.clock_inputs) l is_time o none_left;
            homes = (at_end s.clock_inputs f.number, tt);
            clocks = Keeps-append s.clock_inputs (f.number ∷ []);
            calendars = λ n g k. k;
          }),
        )

    calendar-Ends :
        (f : InputField) (s : Setup)
        → ¬ IsTime f
        → IsDate f
        → Ends (f ∷ []) s (by_kind f s date_field)
    unfolding by_kind add_calendar_links add_timezone_warning
    calendar-Ends f s t d = (
      _,
      refl,
      set_warning-IsSetUp f.parent _ (f ∷ []) s _ (record {
        added = calendar_links (length s.calendar_inputs) f.number ∷ [];
        links = refl;
        shows = a_calendar f (length s.calendar_inputs) t d none_left;
        homes = (at_end s.calendar_inputs f.number, tt);
        clocks = λ n g k. k;
        calendars = Keeps-append s.calendar_inputs (f.number ∷ []);
      }),
    )

    other-Ends :
        (f : InputField) (s : Setup)
        → ¬ IsTime f
        → ¬ IsDate f
        → Ends (f ∷ []) s (by_kind f s other_field)
    unfolding by_kind
    other-Ends f s t d = (
      s,
      refl,
      record {
        added = [];
        links = sym (append-nil s.links);
        shows = neither f t d none_left;
        homes = tt;
        clocks = λ n g k. k;
        calendars = λ n g k. k;
      },
    )

    kind-Ends :
        (f : InputField) (s : Setup)
        → (IsTime f → hours.of_name f.name ≢ inherited)
        → Ends (f ∷ []) s (by_kind f s (kind_of f))
    unfolding kind_of
    kind-Ends f s h =
        let time = test_iff f.type_name (codes "text") (codes "vTimeField") f.class_name in
        let date = test_iff f.type_name (codes "text") (codes "vDateField") f.class_name in
        elim (Bool-cases
          (same_text f.type_name (codes "text") && includes (codes "vTimeField") f.class_name)) [
            | inl is_time ↦ rw is_time (clock-Ends f s (time.0 is_time) (h (time.0 is_time)))
            | inr not_time ↦
                let no_time : ¬ IsTime f = λ t. apart (time.1 t) not_time in
                elim (Bool-cases (
                  same_text f.type_name (codes "text")
                  && includes (codes "vDateField") f.class_name)) [
                    | inl is_date ↦
                        rw (not_time, is_date) (calendar-Ends f s no_time (date.0 is_date))
                    | inr not_date ↦
                        rw (not_time, not_date)
                          (other-Ends f s no_time (λ d. apart (date.1 d) not_date))
                  ]
          ]
      where
        apart : {b : Bool} → b ≡ true → b ≡ false → ⊥
        apart p q = cc

    init_fields-Ends :
        (fields : List InputField) (s : Setup)
        → All (λ f. IsTime f → hours.of_name f.name ≢ inherited) fields
        → Ends fields s (init_fields hours offset fields s)
    unfolding init_fields
    init_fields-Ends [] s h = (s, refl, nothing-IsSetUp s)
    init_fields-Ends (f ∷ fields) s h =
        let (t, e, v) = kind-Ends f s h.0 in
        let (s', e', w) = init_fields-Ends fields t h.1 in
        (s', rw (init_field_lem f s ∙ e) e', joined-IsSetUp (f ∷ []) fields s t s' v w)

    -- A set-up of the page anew, whatever was set up before, ends without an error, where no time input has
    -- a name that `clockHours` inherits. In the order of the inputs it leaves links to a clock beside each
    -- text input whose class has `vTimeField` in it, which offers the choices of its name (the default ones
    -- if it has none); links to a calendar beside each other one whose class has `vDateField` in it; and
    -- nothing beside the rest. The number that the handlers know is that of the field, and an earlier
    -- number goes on naming its own.
    pub reinit_lem :
        (fields : List InputField) (s : Setup)
        → All (λ f. IsTime f → hours.of_name f.name ≢ inherited) fields
        → (s' : Setup) × (reinit hours offset fields s ≡ some s')
          × SetUpFor hours fields s'.links
          × All (LeadsHome s'.clock_inputs s'.calendar_inputs) s'.links
          × Keeps s.clock_inputs s'.clock_inputs
          × Keeps s.calendar_inputs s'.calendar_inputs
    unfolding reinit
    reinit_lem fields s h =
        let (s', e, v) = init_fields-Ends fields (record s { links = [] }) h in
        (
          s',
          e,
          subst (SetUpFor hours fields) (sym v.links) v.shows,
          subst (All (LeadsHome s'.clock_inputs s'.calendar_inputs)) (sym v.links) v.homes,
          v.clocks,
          v.calendars,
        )
