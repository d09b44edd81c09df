-- ===== src/Pdu/Gsm7/Tables.antt =====
-- The tables of the GSM 03.38 alphabet in src/common/pdu/pdu.cpp.
use sms_relay.Base.{ℕ, List, [], ◌∷◌, Bytes}

-- `GSM7_LOOKUP`: code point and position.
abbrev pub gsm7_lookup : List (ℕ × ℕ)
gsm7_lookup =
    (0x40, 0)
    ∷ (0xA3, 1)
    ∷ (0x24, 2)
    ∷ (0xA5, 3)
    ∷ (0xE8, 4)
    ∷ (0xE9, 5)
    ∷ (0xF9, 6)
    ∷ (0xEC, 7)
    ∷ (0xF2, 8)
    ∷ (0xC7, 9)
    ∷ (0x0A, 10)
    ∷ (0xD8, 11)
    ∷ (0xF8, 12)
    ∷ (0x0D, 13)
    ∷ (0xC5, 14)
    ∷ (0xE5, 15)
    ∷ (0x0394, 16)
    ∷ (0x5F, 17)
    ∷ (0x03A6, 18)
    ∷ (0x0393, 19)
    ∷ (0x039B, 20)
    ∷ (0x03A9, 21)
    ∷ (0x03A0, 22)
    ∷ (0x03A8, 23)
    ∷ (0x03A3, 24)
    ∷ (0x0398, 25)
    ∷ (0x039E, 26)
    ∷ (0x001B, 27)
    ∷ (0xC6, 28)
    ∷ (0xAE, 29)
    ∷ (0xDF, 30)
    ∷ (0xC9, 31)
    ∷ (0x20, 32)
    ∷ (0x21, 33)
    ∷ (0x22, 34)
    ∷ (0x23, 35)
    ∷ (0xA4, 36)
    ∷ (0x25, 37)
    ∷ (0x26, 38)
    ∷ (0x27, 39)
    ∷ (0x28, 40)
    ∷ (0x29, 41)
    ∷ (0x2A, 42)
    ∷ (0x2B, 43)
    ∷ (0x2C, 44)
    ∷ (0x2D, 45)
    ∷ (0x2E, 46)
    ∷ (0x2F, 47)
    ∷ (0x30, 48)
    ∷ (0x31, 49)
    ∷ (0x32, 50)
    ∷ (0x33, 51)
    ∷ (0x34, 52)
    ∷ (0x35, 53)
    ∷ (0x36, 54)
    ∷ (0x37, 55)
    ∷ (0x38, 56)
    ∷ (0x39, 57)
    ∷ (0x3A, 58)
    ∷ (0x3B, 59)
    ∷ (0x3C, 60)
    ∷ (0x3D, 61)
    ∷ (0x3E, 62)
    ∷ (0x3F, 63)
    ∷ (0xA1, 64)
    ∷ (0x41, 65)
    ∷ (0x42, 66)
    ∷ (0x43, 67)
    ∷ (0x44, 68)
    ∷ (0x45, 69)
    ∷ (0x46, 70)
    ∷ (0x47, 71)
    ∷ (0x48, 72)
    ∷ (0x49, 73)
    ∷ (0x4A, 74)
    ∷ (0x4B, 75)
    ∷ (0x4C, 76)
    ∷ (0x4D, 77)
    ∷ (0x4E, 78)
    ∷ (0x4F, 79)
    ∷ (0x50, 80)
    ∷ (0x51, 81)
    ∷ (0x52, 82)
    ∷ (0x53, 83)
    ∷ (0x54, 84)
    ∷ (0x55, 85)
    ∷ (0x56, 86)
    ∷ (0x57, 87)
    ∷ (0x58, 88)
    ∷ (0x59, 89)
    ∷ (0x5A, 90)
    ∷ (0xC4, 91)
    ∷ (0xD6, 92)
    ∷ (0xD1, 93)
    ∷ (0xDC, 94)
    ∷ (0x60, 95)
    ∷ (0xBF, 96)
    ∷ (0x61, 97)
    ∷ (0x62, 98)
    ∷ (0x63, 99)
    ∷ (0x64, 100)
    ∷ (0x65, 101)
    ∷ (0x66, 102)
    ∷ (0x67, 103)
    ∷ (0x68, 104)
    ∷ (0x69, 105)
    ∷ (0x6A, 106)
    ∷ (0x6B, 107)
    ∷ (0x6C, 108)
    ∷ (0x6D, 109)
    ∷ (0x6E, 110)
    ∷ (0x6F, 111)
    ∷ (0x70, 112)
    ∷ (0x71, 113)
    ∷ (0x72, 114)
    ∷ (0x73, 115)
    ∷ (0x74, 116)
    ∷ (0x75, 117)
    ∷ (0x76, 118)
    ∷ (0x77, 119)
    ∷ (0x78, 120)
    ∷ (0x79, 121)
    ∷ (0x7A, 122)
    ∷ (0xE4, 123)
    ∷ (0xF6, 124)
    ∷ (0xF1, 125)
    ∷ (0xFC, 126)
    ∷ (0xE0, 127)
    ∷ []

-- `GSM7_EXTENDED`: character and the code behind the escape.
abbrev pub gsm7_extended : List (ℕ × ℕ)
gsm7_extended =
    (0x0C, 0x0A)
    ∷ (b'^', 0x14)
    ∷ (0x7B, 0x28)
    ∷ (0x7D, 0x29)
    ∷ (0x5C, 0x2F)
    ∷ (b'[', 0x3C)
    ∷ (b'~', 0x3D)
    ∷ (b']', 0x3E)
    ∷ (b'|', 0x40)
    ∷ []

-- The cases 0 to 31 of `gsm7_get_char`, in UTF-8.
abbrev pub special_chars : List Bytes
special_chars =
    (0x40 ∷ [])
    ∷ (0xC2 ∷ 0xA3 ∷ [])
    ∷ (0x24 ∷ [])
    ∷ (0xC2 ∷ 0xA5 ∷ [])
    ∷ (0xC3 ∷ 0xA8 ∷ [])
    ∷ (0xC3 ∷ 0xA9 ∷ [])
    ∷ (0xC3 ∷ 0xB9 ∷ [])
    ∷ (0xC3 ∷ 0xAC ∷ [])
    ∷ (0xC3 ∷ 0xB2 ∷ [])
    ∷ (0xC3 ∷ 0x87 ∷ [])
    ∷ (0x0A ∷ [])
    ∷ (0xC3 ∷ 0x98 ∷ [])
    ∷ (0xC3 ∷ 0xB8 ∷ [])
    ∷ (0x0D ∷ [])
    ∷ (0xC3 ∷ 0x85 ∷ [])
    ∷ (0xC3 ∷ 0xA5 ∷ [])
    ∷ (0xCE ∷ 0x94 ∷ [])
    ∷ (0x5F ∷ [])
    ∷ (0xCE ∷ 0xA6 ∷ [])
    ∷ (0xCE ∷ 0x93 ∷ [])
    ∷ (0xCE ∷ 0x9B ∷ [])
    ∷ (0xCE ∷ 0xA9 ∷ [])
    ∷ (0xCE ∷ 0xA0 ∷ [])
    ∷ (0xCE ∷ 0xA8 ∷ [])
    ∷ (0xCE ∷ 0xA3 ∷ [])
    ∷ (0xCE ∷ 0x98 ∷ [])
    ∷ (0xCE ∷ 0x9E ∷ [])
    ∷ (0x1B ∷ [])
    ∷ (0xC3 ∷ 0x86 ∷ [])
    ∷ (0xC3 ∷ 0xAE ∷ [])
    ∷ (0xC3 ∷ 0x9F ∷ [])
    ∷ (0xC3 ∷ 0x89 ∷ [])
    ∷ []
