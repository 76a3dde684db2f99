-- ===== src/Core/Examples.antt =====
-- The date formats at concrete days: 5 November 2020, with `%d/%m/%Y` and with `%m/%d/%y`.
use bluetooth_autonomous_car.Prelude.{◌≡◌, refl, arith, [], none, some, pos}
use bluetooth_autonomous_car.JsDate.{make_full_year, day_within_year, leap_days, in_leap_year}
use bluetooth_autonomous_car.Core.{Moment, is_separator, strftime, strptime}
use bluetooth_autonomous_car.Core.RoundTrip.{strptime-strftime}
use bluetooth_autonomous_car.Core.Pieces.{day_month_year, format, three, date_fields}
use bluetooth_autonomous_car.Core.Century.{in_year, strptime-strftime_two_digit}

abbrev evening : Moment
evening = record {
  full_year = pos 2020;
  month = 10;
  date = 5;
  hours = 20;
  minutes = 7;
  seconds = 9;
  day = 4;
  text = [];
  locale_date = [];
  locale_time = [];
  month_names = none;
}

strptime-strftime_example :
    strptime (strftime evening (format day_month_year b'/' b'/')) (format day_month_year b'/' b'/')
    ≡ some (date_fields evening)
unfolding is_separator make_full_year day_within_year leap_days in_leap_year
strptime-strftime_example = strptime-strftime day_month_year b'/' b'/' evening refl refl (record {
  common_era = refl;
  kept = refl;
  valid = record { month_in = omega arith; first = omega arith; last = omega arith };
})

strptime-strftime_two_digit_example :
    strptime
      (strftime (in_year 2020 evening) (three b'm' b'/' b'd' b'/' b'y'))
      (three b'm' b'/' b'd' b'/' b'y')
    ≡ some (date_fields (in_year 1920 evening))
unfolding is_separator make_full_year day_within_year leap_days in_leap_year
strptime-strftime_two_digit_example =
    strptime-strftime_two_digit b'/' b'/' 2020 evening refl refl (omega arith) (omega arith)
      (record {
        common_era = refl;
        kept = refl;
        valid = record { month_in = omega arith; first = omega arith; last = omega arith };
      })
