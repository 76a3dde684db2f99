-- ===== src/SelectBox/Session/Apart.antt =====
-- Entries whose values are all different, and parts of them.
use mathlib.Core.List.{Mem, Nodup-cons, Nodup-nil, not-mem-nil, mem-cons}
use mathlib.Core.Logic.Or
use mathlib.Core.Logic.{not-or}
use bluetooth_autonomous_car.Prelude.{◌≢◌, List, [], ◌∷◌, ◌++◌, All, map}
use bluetooth_autonomous_car.SelectBox.Nodes.{Entry}
use bluetooth_autonomous_car.SelectBox.Sync.{EntriesApart}
use bluetooth_autonomous_car.SelectBox.Session.{NoRepeat}

pub EntriesApart-of_NoRepeat : (es : List Entry) → NoRepeat es → EntriesApart es
EntriesApart-of_NoRepeat [] h = tt
EntriesApart-of_NoRepeat (e ∷ es) h =
    (not_among es (Nodup-cons.0 h).0, EntriesApart-of_NoRepeat es (Nodup-cons.0 h).1)
  where
    not_among : (rest : List Entry) → ¬ Mem e.0 (map (λ e. e.0) rest) → All (λ e'. e.0 ≢ e'.0) rest
    not_among [] n = tt
    not_among (r ∷ rest) n =
        ((λ q. n (mem-cons.1 (Or.inl q))), not_among rest (λ m. n (mem-cons.1 (Or.inr m))))

pub EntriesApart-append :
    (xs ys : List Entry) → EntriesApart (xs ++ ys) → EntriesApart xs × EntriesApart ys
EntriesApart-append [] ys h = (tt, h)
EntriesApart-append (x ∷ xs) ys h =
    let (a, b) = EntriesApart-append xs ys h.1 in ((front xs h.0, a), b)
  where
    front : (zs : List Entry) → All (λ e. x.0 ≢ e.0) (zs ++ ys) → All (λ e. x.0 ≢ e.0) zs
    front [] h = tt
    front (z ∷ zs) h = (h.0, front zs h.1)

pub NoRepeat-of_EntriesApart : (es : List Entry) → EntriesApart es → NoRepeat es
NoRepeat-of_EntriesApart [] h = Nodup-nil
NoRepeat-of_EntriesApart (e ∷ es) h =
    Nodup-cons.1 (not_listed es h.0, NoRepeat-of_EntriesApart es h.1)
  where
    not_listed : (rest : List Entry) → All (λ e'. e.0 ≢ e'.0) rest → ¬ Mem e.0 (map (λ e. e.0) rest)
    not_listed [] n m = not-mem-nil m
    not_listed (r ∷ rest) n m = (not-or.1 (n.0, not_listed rest n.1)) (mem-cons.0 m)
