-- ===== src/Downcode/Slavic.antt =====
-- static/admin/js/urlify.js: the maps RUSSIAN_MAP, UKRAINIAN_MAP, CZECH_MAP, SLOVAK_MAP, POLISH_MAP.
use bluetooth_autonomous_car.Prelude.{ℕ, List, [], ◌∷◌}
use bluetooth_autonomous_car.Text.{Text, codes}

unfoldable pub russian_map : List (ℕ × Text)
russian_map =
    (1072, codes "a")
    ∷ (1073, codes "b")
    ∷ (1074, codes "v")
    ∷ (1075, codes "g")
    ∷ (1076, codes "d")
    ∷ (1077, codes "e")
    ∷ (1105, codes "yo")
    ∷ (1078, codes "zh")
    ∷ (1079, codes "z")
    ∷ (1080, codes "i")
    ∷ (1081, codes "j")
    ∷ (1082, codes "k")
    ∷ (1083, codes "l")
    ∷ (1084, codes "m")
    ∷ (1085, codes "n")
    ∷ (1086, codes "o")
    ∷ (1087, codes "p")
    ∷ (1088, codes "r")
    ∷ (1089, codes "s")
    ∷ (1090, codes "t")
    ∷ (1091, codes "u")
    ∷ (1092, codes "f")
    ∷ (1093, codes "h")
    ∷ (1094, codes "c")
    ∷ (1095, codes "ch")
    ∷ (1096, codes "sh")
    ∷ (1097, codes "sh")
    ∷ (1098, codes "")
    ∷ (1099, codes "y")
    ∷ (1100, codes "")
    ∷ (1101, codes "e")
    ∷ (1102, codes "yu")
    ∷ (1103, codes "ya")
    ∷ (1040, codes "A")
    ∷ (1041, codes "B")
    ∷ (1042, codes "V")
    ∷ (1043, codes "G")
    ∷ (1044, codes "D")
    ∷ (1045, codes "E")
    ∷ (1025, codes "Yo")
    ∷ (1046, codes "Zh")
    ∷ (1047, codes "Z")
    ∷ (1048, codes "I")
    ∷ (1049, codes "J")
    ∷ (1050, codes "K")
    ∷ (1051, codes "L")
    ∷ (1052, codes "M")
    ∷ (1053, codes "N")
    ∷ (1054, codes "O")
    ∷ (1055, codes "P")
    ∷ (1056, codes "R")
    ∷ (1057, codes "S")
    ∷ (1058, codes "T")
    ∷ (1059, codes "U")
    ∷ (1060, codes "F")
    ∷ (1061, codes "H")
    ∷ (1062, codes "C")
    ∷ (1063, codes "Ch")
    ∷ (1064, codes "Sh")
    ∷ (1065, codes "Sh")
    ∷ (1066, codes "")
    ∷ (1067, codes "Y")
    ∷ (1068, codes "")
    ∷ (1069, codes "E")
    ∷ (1070, codes "Yu")
    ∷ (1071, codes "Ya")
    ∷ []

unfoldable pub ukrainian_map : List (ℕ × Text)
ukrainian_map =
    (1028, codes "Ye")
    ∷ (1030, codes "I")
    ∷ (1031, codes "Yi")
    ∷ (1168, codes "G")
    ∷ (1108, codes "ye")
    ∷ (1110, codes "i")
    ∷ (1111, codes "yi")
    ∷ (1169, codes "g")
    ∷ []

unfoldable pub czech_map : List (ℕ × Text)
czech_map =
    (269, codes "c")
    ∷ (271, codes "d")
    ∷ (283, codes "e")
    ∷ (328, codes "n")
    ∷ (345, codes "r")
    ∷ (353, codes "s")
    ∷ (357, codes "t")
    ∷ (367, codes "u")
    ∷ (382, codes "z")
    ∷ (268, codes "C")
    ∷ (270, codes "D")
    ∷ (282, codes "E")
    ∷ (327, codes "N")
    ∷ (344, codes "R")
    ∷ (352, codes "S")
    ∷ (356, codes "T")
    ∷ (366, codes "U")
    ∷ (381, codes "Z")
    ∷ []

unfoldable pub slovak_map : List (ℕ × Text)
slovak_map =
    (225, codes "a")
    ∷ (228, codes "a")
    ∷ (269, codes "c")
    ∷ (271, codes "d")
    ∷ (233, codes "e")
    ∷ (237, codes "i")
    ∷ (318, codes "l")
    ∷ (314, codes "l")
    ∷ (328, codes "n")
    ∷ (243, codes "o")
    ∷ (244, codes "o")
    ∷ (341, codes "r")
    ∷ (353, codes "s")
    ∷ (357, codes "t")
    ∷ (250, codes "u")
    ∷ (253, codes "y")
    ∷ (382, codes "z")
    ∷ (193, codes "a")
    ∷ (196, codes "A")
    ∷ (268, codes "C")
    ∷ (270, codes "D")
    ∷ (201, codes "E")
    ∷ (205, codes "I")
    ∷ (317, codes "L")
    ∷ (313, codes "L")
    ∷ (327, codes "N")
    ∷ (211, codes "O")
    ∷ (212, codes "O")
    ∷ (340, codes "R")
    ∷ (352, codes "S")
    ∷ (356, codes "T")
    ∷ (218, codes "U")
    ∷ (221, codes "Y")
    ∷ (381, codes "Z")
    ∷ []

unfoldable pub polish_map : List (ℕ × Text)
polish_map =
    (261, codes "a")
    ∷ (263, codes "c")
    ∷ (281, codes "e")
    ∷ (322, codes "l")
    ∷ (324, codes "n")
    ∷ (243, codes "o")
    ∷ (347, codes "s")
    ∷ (378, codes "z")
    ∷ (380, codes "z")
    ∷ (260, codes "A")
    ∷ (262, codes "C")
    ∷ (280, codes "E")
    ∷ (321, codes "L")
    ∷ (323, codes "N")
    ∷ (211, codes "O")
    ∷ (346, codes "S")
    ∷ (377, codes "Z")
    ∷ (379, codes "Z")
    ∷ []
