-- ===== src/Calendar/Navigation.antt =====
-- The month that the `Calendar` object shows, through the four ways to move it.
use bluetooth_autonomous_car.Prelude.{
  ◌+◌, ◌-◌, ◌*◌, ◌≤◌, ◌≡◌, refl, ap, sym, eq_of_parts, ◌∙◌, arith, List, [], ◌∷◌, ℤ, pos, negsuc,
  pos_part, neg_part, sub_ℕ, ◌+ℤ◌, ◌-ℤ◌, int_laws,
}
use bluetooth_autonomous_car.JsDate.{DateFields}
use bluetooth_autonomous_car.Calendar.{
  Locale, Calendar, Click, previous_month_link, next_month_link, previous_year_link, next_year_link,
  click, run,
}

abbrev pub HasMonth : Calendar → Type 0
HasMonth c = (1 ≤ c.current_month) × (c.current_month ≤ 12)

-- Months counted from January of year 0.
abbrev pub month_index : Calendar → ℤ
month_index c =
    sub_ℕ (12 * pos_part c.current_year + (c.current_month - 1)) (12 * neg_part c.current_year)

abbrev pub offset : Click → ℤ
offset previous_month_link = negsuc 0
offset next_month_link = pos 1
offset previous_year_link = negsuc 11
offset next_year_link = pos 12

abbrev pub total_offset : List Click → ℤ
total_offset [] = pos 0
total_offset (k ∷ ks) = offset k +ℤ total_offset ks

module _ (l : Locale) (now : DateFields) where
  pub click-HasMonth : (k : Click) (c : Calendar) → HasMonth c → HasMonth (click l now k c).0
  unfolding click
  click-HasMonth previous_month_link c h = ground arith
  click-HasMonth next_month_link c h = ground arith
  click-HasMonth previous_year_link c h = h
  click-HasMonth next_year_link c h = h

  month_index-click :
      (k : Click) (c : Calendar)
      → HasMonth c
      → month_index (click l now k c).0 ≡ month_index c +ℤ offset k
  unfolding click ◌+ℤ◌ ◌-ℤ◌
  month_index-click previous_month_link c h = ground arith
  month_index-click next_month_link c h = ground arith
  month_index-click previous_year_link c h = ground arith
  month_index-click next_year_link c h = ground arith

  selected-click : (k : Click) (c : Calendar) → (click l now k c).0.selected_date ≡ c.selected_date
  unfolding click
  selected-click previous_month_link c = ground arith
  selected-click next_month_link c = ground arith
  selected-click previous_year_link c = refl
  selected-click next_year_link c = refl

  -- From a month of 1 to 12, a session of clicks moves the month by the sum of its clicks, keeps it
  -- from 1 to 12 and keeps the selected date.
  pub month_index-run :
      (ks : List Click) (c : Calendar)
      → HasMonth c
      → HasMonth (run l now ks c)
        × (month_index (run l now ks c) ≡ month_index c +ℤ total_offset ks)
        × ((run l now ks c).selected_date ≡ c.selected_date)
  unfolding run
  month_index-run [] c h = (h, omega int_laws, refl)
  month_index-run (k ∷ ks) c h =
      let (h', index, same) = month_index-run ks (click l now k c).0 (click-HasMonth k c h) in
      (
        h',
        index ∙ ap (λ i. i +ℤ total_offset ks) (month_index-click k c h) ∙ omega int_laws,
        same ∙ selected-click k c,
      )

month_index_parts :
    (c : Calendar)
    → pos_part (month_index c) + 12 * neg_part c.current_year
      ≡ neg_part (month_index c) + 12 * pos_part c.current_year + (c.current_month - 1)
month_index_parts c = ground arith

-- The month index and the selection determine the state.
month_index_inj :
    (c c' : Calendar)
    → HasMonth c
    → HasMonth c'
    → month_index c ≡ month_index c'
    → c.selected_date ≡ c'.selected_date
    → c ≡ c'
month_index_inj c c' h h' e s =
    λ i. record { current_month = same_month i; current_year = same_year i; selected_date = s i }
  where
    parts :
        (12 * pos_part c.current_year + c.current_month + 12 * neg_part c'.current_year
          ≡ 12 * pos_part c'.current_year + c'.current_month + 12 * neg_part c.current_year)
    parts = omega (arith, month_index_parts c, month_index_parts c', ap pos_part e, ap neg_part e)

    same_year : c.current_year ≡ c'.current_year
    same_year = eq_of_parts _ _ (omega (arith, parts))

    same_month : c.current_month ≡ c'.current_month
    same_month = omega (arith, parts, ap pos_part same_year, ap neg_part same_year)

-- From a month of 1 to 12, two sessions whose clicks add up to the same number of months end in the same state.
pub run_confluent :
    (l : Locale) (now : DateFields) (ks ks' : List Click) (c : Calendar)
    → HasMonth c
    → total_offset ks ≡ total_offset ks'
    → run l now ks c ≡ run l now ks' c
run_confluent l now ks ks' c h e =
    let (m, i, s) = month_index-run l now ks c h in
    let (m', i', s') = month_index-run l now ks' c h in
    month_index_inj _ _ m m' (i ∙ ap (month_index c +ℤ◌) e ∙ sym i') (s ∙ sym s')
