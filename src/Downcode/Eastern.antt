-- ===== src/Downcode/Eastern.antt =====
-- static/admin/js/urlify.js: the maps LATVIAN_MAP, ARABIC_MAP, LITHUANIAN_MAP, SERBIAN_MAP, AZERBAIJANI_MAP, GEORGIAN_MAP.
use bluetooth_autonomous_car.Prelude.{ℕ, List, [], ◌∷◌}
use bluetooth_autonomous_car.Text.{Text, codes}

unfoldable pub latvian_map : List (ℕ × Text)
latvian_map =
    (257, codes "a")
    ∷ (269, codes "c")
    ∷ (275, codes "e")
    ∷ (291, codes "g")
    ∷ (299, codes "i")
    ∷ (311, codes "k")
    ∷ (316, codes "l")
    ∷ (326, codes "n")
    ∷ (353, codes "s")
    ∷ (363, codes "u")
    ∷ (382, codes "z")
    ∷ (256, codes "A")
    ∷ (268, codes "C")
    ∷ (274, codes "E")
    ∷ (290, codes "G")
    ∷ (298, codes "I")
    ∷ (310, codes "K")
    ∷ (315, codes "L")
    ∷ (325, codes "N")
    ∷ (352, codes "S")
    ∷ (362, codes "U")
    ∷ (381, codes "Z")
    ∷ []

unfoldable pub arabic_map : List (ℕ × Text)
arabic_map =
    (1571, codes "a")
    ∷ (1576, codes "b")
    ∷ (1578, codes "t")
    ∷ (1579, codes "th")
    ∷ (1580, codes "g")
    ∷ (1581, codes "h")
    ∷ (1582, codes "kh")
    ∷ (1583, codes "d")
    ∷ (1584, codes "th")
    ∷ (1585, codes "r")
    ∷ (1586, codes "z")
    ∷ (1587, codes "s")
    ∷ (1588, codes "sh")
    ∷ (1589, codes "s")
    ∷ (1590, codes "d")
    ∷ (1591, codes "t")
    ∷ (1592, codes "th")
    ∷ (1593, codes "aa")
    ∷ (1594, codes "gh")
    ∷ (1601, codes "f")
    ∷ (1602, codes "k")
    ∷ (1603, codes "k")
    ∷ (1604, codes "l")
    ∷ (1605, codes "m")
    ∷ (1606, codes "n")
    ∷ (1607, codes "h")
    ∷ (1608, codes "o")
    ∷ (1610, codes "y")
    ∷ []

unfoldable pub lithuanian_map : List (ℕ × Text)
lithuanian_map =
    (261, codes "a")
    ∷ (269, codes "c")
    ∷ (281, codes "e")
    ∷ (279, codes "e")
    ∷ (303, codes "i")
    ∷ (353, codes "s")
    ∷ (371, codes "u")
    ∷ (363, codes "u")
    ∷ (382, codes "z")
    ∷ (260, codes "A")
    ∷ (268, codes "C")
    ∷ (280, codes "E")
    ∷ (278, codes "E")
    ∷ (302, codes "I")
    ∷ (352, codes "S")
    ∷ (370, codes "U")
    ∷ (362, codes "U")
    ∷ (381, codes "Z")
    ∷ []

unfoldable pub serbian_map : List (ℕ × Text)
serbian_map =
    (1106, codes "dj")
    ∷ (1112, codes "j")
    ∷ (1113, codes "lj")
    ∷ (1114, codes "nj")
    ∷ (1115, codes "c")
    ∷ (1119, codes "dz")
    ∷ (273, codes "dj")
    ∷ (1026, codes "Dj")
    ∷ (1032, codes "j")
    ∷ (1033, codes "Lj")
    ∷ (1034, codes "Nj")
    ∷ (1035, codes "C")
    ∷ (1039, codes "Dz")
    ∷ (272, codes "Dj")
    ∷ []

unfoldable pub azerbaijani_map : List (ℕ × Text)
azerbaijani_map =
    (231, codes "c")
    ∷ (601, codes "e")
    ∷ (287, codes "g")
    ∷ (305, codes "i")
    ∷ (246, codes "o")
    ∷ (351, codes "s")
    ∷ (252, codes "u")
    ∷ (199, codes "C")
    ∷ (399, codes "E")
    ∷ (286, codes "G")
    ∷ (304, codes "I")
    ∷ (214, codes "O")
    ∷ (350, codes "S")
    ∷ (220, codes "U")
    ∷ []

unfoldable pub georgian_map : List (ℕ × Text)
georgian_map =
    (4304, codes "a")
    ∷ (4305, codes "b")
    ∷ (4306, codes "g")
    ∷ (4307, codes "d")
    ∷ (4308, codes "e")
    ∷ (4309, codes "v")
    ∷ (4310, codes "z")
    ∷ (4311, codes "t")
    ∷ (4312, codes "i")
    ∷ (4313, codes "k")
    ∷ (4314, codes "l")
    ∷ (4315, codes "m")
    ∷ (4316, codes "n")
    ∷ (4317, codes "o")
    ∷ (4318, codes "p")
    ∷ (4319, codes "j")
    ∷ (4320, codes "r")
    ∷ (4321, codes "s")
    ∷ (4322, codes "t")
    ∷ (4323, codes "u")
    ∷ (4324, codes "f")
    ∷ (4325, codes "q")
    ∷ (4326, codes "g")
    ∷ (4327, codes "y")
    ∷ (4328, codes "sh")
    ∷ (4329, codes "ch")
    ∷ (4330, codes "c")
    ∷ (4331, codes "dz")
    ∷ (4332, codes "w")
    ∷ (4333, codes "ch")
    ∷ (4334, codes "x")
    ∷ (4335, codes "j")
    ∷ (4336, codes "h")
    ∷ []
