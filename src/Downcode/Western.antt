-- ===== src/Downcode/Western.antt =====
-- static/admin/js/urlify.js: the maps LATIN_MAP, LATIN_SYMBOLS_MAP, GREEK_MAP, TURKISH_MAP, ROMANIAN_MAP.
use bluetooth_autonomous_car.Prelude.{ℕ, List, [], ◌∷◌}
use bluetooth_autonomous_car.Text.{Text, codes}

unfoldable pub latin_map : List (ℕ × Text)
latin_map =
    (192, codes "A")
    ∷ (193, codes "A")
    ∷ (194, codes "A")
    ∷ (195, codes "A")
    ∷ (196, codes "A")
    ∷ (197, codes "A")
    ∷ (198, codes "AE")
    ∷ (199, codes "C")
    ∷ (200, codes "E")
    ∷ (201, codes "E")
    ∷ (202, codes "E")
    ∷ (203, codes "E")
    ∷ (204, codes "I")
    ∷ (205, codes "I")
    ∷ (206, codes "I")
    ∷ (207, codes "I")
    ∷ (208, codes "D")
    ∷ (209, codes "N")
    ∷ (210, codes "O")
    ∷ (211, codes "O")
    ∷ (212, codes "O")
    ∷ (213, codes "O")
    ∷ (214, codes "O")
    ∷ (336, codes "O")
    ∷ (216, codes "O")
    ∷ (217, codes "U")
    ∷ (218, codes "U")
    ∷ (219, codes "U")
    ∷ (220, codes "U")
    ∷ (368, codes "U")
    ∷ (221, codes "Y")
    ∷ (222, codes "TH")
    ∷ (376, codes "Y")
    ∷ (223, codes "ss")
    ∷ (224, codes "a")
    ∷ (225, codes "a")
    ∷ (226, codes "a")
    ∷ (227, codes "a")
    ∷ (228, codes "a")
    ∷ (229, codes "a")
    ∷ (230, codes "ae")
    ∷ (231, codes "c")
    ∷ (232, codes "e")
    ∷ (233, codes "e")
    ∷ (234, codes "e")
    ∷ (235, codes "e")
    ∷ (236, codes "i")
    ∷ (237, codes "i")
    ∷ (238, codes "i")
    ∷ (239, codes "i")
    ∷ (240, codes "d")
    ∷ (241, codes "n")
    ∷ (242, codes "o")
    ∷ (243, codes "o")
    ∷ (244, codes "o")
    ∷ (245, codes "o")
    ∷ (246, codes "o")
    ∷ (337, codes "o")
    ∷ (248, codes "o")
    ∷ (249, codes "u")
    ∷ (250, codes "u")
    ∷ (251, codes "u")
    ∷ (252, codes "u")
    ∷ (369, codes "u")
    ∷ (253, codes "y")
    ∷ (254, codes "th")
    ∷ (255, codes "y")
    ∷ []

unfoldable pub latin_symbols_map : List (ℕ × Text)
latin_symbols_map = (169, codes "(c)") ∷ []

unfoldable pub greek_map : List (ℕ × Text)
greek_map =
    (945, codes "a")
    ∷ (946, codes "b")
    ∷ (947, codes "g")
    ∷ (948, codes "d")
    ∷ (949, codes "e")
    ∷ (950, codes "z")
    ∷ (951, codes "h")
    ∷ (952, codes "8")
    ∷ (953, codes "i")
    ∷ (954, codes "k")
    ∷ (955, codes "l")
    ∷ (956, codes "m")
    ∷ (957, codes "n")
    ∷ (958, codes "3")
    ∷ (959, codes "o")
    ∷ (960, codes "p")
    ∷ (961, codes "r")
    ∷ (963, codes "s")
    ∷ (964, codes "t")
    ∷ (965, codes "y")
    ∷ (966, codes "f")
    ∷ (967, codes "x")
    ∷ (968, codes "ps")
    ∷ (969, codes "w")
    ∷ (940, codes "a")
    ∷ (941, codes "e")
    ∷ (943, codes "i")
    ∷ (972, codes "o")
    ∷ (973, codes "y")
    ∷ (942, codes "h")
    ∷ (974, codes "w")
    ∷ (962, codes "s")
    ∷ (970, codes "i")
    ∷ (944, codes "y")
    ∷ (971, codes "y")
    ∷ (912, codes "i")
    ∷ (913, codes "A")
    ∷ (914, codes "B")
    ∷ (915, codes "G")
    ∷ (916, codes "D")
    ∷ (917, codes "E")
    ∷ (918, codes "Z")
    ∷ (919, codes "H")
    ∷ (920, codes "8")
    ∷ (921, codes "I")
    ∷ (922, codes "K")
    ∷ (923, codes "L")
    ∷ (924, codes "M")
    ∷ (925, codes "N")
    ∷ (926, codes "3")
    ∷ (927, codes "O")
    ∷ (928, codes "P")
    ∷ (929, codes "R")
    ∷ (931, codes "S")
    ∷ (932, codes "T")
    ∷ (933, codes "Y")
    ∷ (934, codes "F")
    ∷ (935, codes "X")
    ∷ (936, codes "PS")
    ∷ (937, codes "W")
    ∷ (902, codes "A")
    ∷ (904, codes "E")
    ∷ (906, codes "I")
    ∷ (908, codes "O")
    ∷ (910, codes "Y")
    ∷ (905, codes "H")
    ∷ (911, codes "W")
    ∷ (938, codes "I")
    ∷ (939, codes "Y")
    ∷ []

unfoldable pub turkish_map : List (ℕ × Text)
turkish_map =
    (351, codes "s")
    ∷ (350, codes "S")
    ∷ (305, codes "i")
    ∷ (304, codes "I")
    ∷ (231, codes "c")
    ∷ (199, codes "C")
    ∷ (252, codes "u")
    ∷ (220, codes "U")
    ∷ (246, codes "o")
    ∷ (214, codes "O")
    ∷ (287, codes "g")
    ∷ (286, codes "G")
    ∷ []

unfoldable pub romanian_map : List (ℕ × Text)
romanian_map =
    (259, codes "a")
    ∷ (238, codes "i")
    ∷ (537, codes "s")
    ∷ (539, codes "t")
    ∷ (226, codes "a")
    ∷ (258, codes "A")
    ∷ (206, codes "I")
    ∷ (536, codes "S")
    ∷ (538, codes "T")
    ∷ (194, codes "A")
    ∷ []
