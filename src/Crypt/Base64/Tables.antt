-- ===== src/Crypt/Base64/Tables.antt =====
-- lualib-src/lua-crypt.c: the tables of the codec for base 64.
use ue4_background.Prelude.{ℕ, List, [], ◌∷◌}

-- What a character stands for: six bits, the mark `=` (-2), or nothing (-1).
pub data Code : Type 0 where
  sextet : ℕ → Code
  mark : Code
  other : Code

-- `encoding`
unfoldable pub encoding : List ℕ
encoding =
    65 ∷ 66 ∷ 67 ∷ 68 ∷ 69 ∷ 70 ∷ 71 ∷ 72 ∷ 73 ∷ 74 ∷ 75 ∷ 76 ∷ 77 ∷ 78 ∷ 79 ∷ 80 ∷ 81 ∷ 82 ∷ 83
    ∷ 84 ∷ 85 ∷ 86 ∷ 87 ∷ 88 ∷ 89 ∷ 90 ∷ 97 ∷ 98 ∷ 99 ∷ 100 ∷ 101 ∷ 102 ∷ 103 ∷ 104 ∷ 105 ∷ 106
    ∷ 107 ∷ 108 ∷ 109 ∷ 110 ∷ 111 ∷ 112 ∷ 113 ∷ 114 ∷ 115 ∷ 116 ∷ 117 ∷ 118 ∷ 119 ∷ 120 ∷ 121 ∷ 122
    ∷ 48 ∷ 49 ∷ 50 ∷ 51 ∷ 52 ∷ 53 ∷ 54 ∷ 55 ∷ 56 ∷ 57 ∷ 43 ∷ 47 ∷ []

-- `decoding`
unfoldable pub decoding : List Code
decoding =
    sextet 62
    ∷ other
    ∷ other
    ∷ other
    ∷ sextet 63
    ∷ sextet 52
    ∷ sextet 53
    ∷ sextet 54
    ∷ sextet 55
    ∷ sextet 56
    ∷ sextet 57
    ∷ sextet 58
    ∷ sextet 59
    ∷ sextet 60
    ∷ sextet 61
    ∷ other
    ∷ other
    ∷ other
    ∷ mark
    ∷ other
    ∷ other
    ∷ other
    ∷ sextet 0
    ∷ sextet 1
    ∷ sextet 2
    ∷ sextet 3
    ∷ sextet 4
    ∷ sextet 5
    ∷ sextet 6
    ∷ sextet 7
    ∷ sextet 8
    ∷ sextet 9
    ∷ sextet 10
    ∷ sextet 11
    ∷ sextet 12
    ∷ sextet 13
    ∷ sextet 14
    ∷ sextet 15
    ∷ sextet 16
    ∷ sextet 17
    ∷ sextet 18
    ∷ sextet 19
    ∷ sextet 20
    ∷ sextet 21
    ∷ sextet 22
    ∷ sextet 23
    ∷ sextet 24
    ∷ sextet 25
    ∷ other
    ∷ other
    ∷ other
    ∷ other
    ∷ other
    ∷ other
    ∷ sextet 26
    ∷ sextet 27
    ∷ sextet 28
    ∷ sextet 29
    ∷ sextet 30
    ∷ sextet 31
    ∷ sextet 32
    ∷ sextet 33
    ∷ sextet 34
    ∷ sextet 35
    ∷ sextet 36
    ∷ sextet 37
    ∷ sextet 38
    ∷ sextet 39
    ∷ sextet 40
    ∷ sextet 41
    ∷ sextet 42
    ∷ sextet 43
    ∷ sextet 44
    ∷ sextet 45
    ∷ sextet 46
    ∷ sextet 47
    ∷ sextet 48
    ∷ sextet 49
    ∷ sextet 50
    ∷ sextet 51
    ∷ []
