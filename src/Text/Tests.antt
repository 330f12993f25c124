-- ===== src/Text/Tests.antt =====
-- The theorems on memory and strings at concrete inputs, and small runs of the code.
use chef_os.Prelude.{
  true, false, ℕ, ◌+◌, ◌-◌, ◌≡◌, inl, refl, ◌==◌, List, [], ◌∷◌, if◌then◌else◌, u8, arith, some,
  true,
}
use chef_os.Text.Signed.{negsuc}
use chef_os.Text.Memory.{Memory, memmove, memcmp}
use chef_os.Text.Memory.Move.{within, memmove_lem}
use chef_os.Text.Strings.{strncpy}
use chef_os.Text.Kprintf.{int_arg, kvprintf, print_num, Output}
use chef_os.Text.Kprintf.Digits.{Printed, print_num-Printed}
use chef_os.Text.Kprintf.Total.{fits}
use chef_os.Text.Kprintf.Sinks.{strip, kvprintf-strip}
use chef_os.Text.Strings.Copy.{HasText, strncpy_short}

-- Every byte of the first page holds its address.
abbrev bytes : Memory
bytes a = u8 a

memmove_lem_example :
    memmove 12 10 4 bytes 14 ≡ (if within 12 4 14 then bytes (10 + (14 - 12)) else bytes 14)
memmove_lem_example = memmove_lem 12 10 4 bytes 14

memmove_runs : memmove 12 10 4 bytes 15 ≡ 13
unfolding memmove
memmove_runs = refl

memcmp_runs : memcmp 3 8 9 bytes ≡ negsuc 0
unfolding memcmp
memcmp_runs = refl

-- `ls` and `lsx`.
abbrev ls : List ℕ
ls = 108 ∷ 115 ∷ []

abbrev lsx : List ℕ
lsx = 108 ∷ 115 ∷ 120 ∷ []

-- A string of two bytes at address 64, and bytes that are not zero elsewhere.
abbrev text : Memory
text a = if a == 66 then 0 else 108

text-HasText : HasText text 64 2
text-HasText = record { text = λ i p. ground arith; terminator = refl }

-- Room for four bytes at address 32: the fifth byte is cleared as well.
strncpy_short_example : strncpy 32 64 4 text 36 ≡ (
    if within 32 2 36 then text (64 + (36 - 32)) else if within 32 (4 + 1) 36 then 0 else text 36)
strncpy_short_example =
    strncpy_short 2 4 32 64 text 36 text-HasText (omega arith) (inl (omega arith))

strncpy_runs : strncpy 32 64 4 text 36 ≡ 0
unfolding strncpy
strncpy_runs = refl

print_num-Printed_example : (s : List ℕ) × Printed 4095 16 true s
print_num-Printed_example = print_num-Printed 4095 16 true (omega arith) (omega arith) (omega arith)

print_num_runs : print_num 4095 16 true ≡ some (70 ∷ 70 ∷ 70 ∷ [])
unfolding print_num
print_num_runs = refl

-- The format `%d` with a newline.
abbrev format : List ℕ
format = 37 ∷ 100 ∷ 10 ∷ []

abbrev minus_seven : Output
minus_seven = record { serial = 45 ∷ 55 ∷ 13 ∷ 10 ∷ []; console = 45 ∷ 55 ∷ 10 ∷ [] }

fits_format : fits false format (int_arg 0xFFFFFFFFFFFFFFF9 ∷ []) ≡ true
unfolding fits
fits_format = refl

kvprintf_runs : kvprintf format (int_arg 0xFFFFFFFFFFFFFFF9 ∷ []) ≡ some minus_seven
unfolding kvprintf print_num
kvprintf_runs = refl

kvprintf-strip_example : strip (45 ∷ 55 ∷ 13 ∷ 10 ∷ []) ≡ strip (45 ∷ 55 ∷ 10 ∷ [])
kvprintf-strip_example =
    kvprintf-strip format (int_arg 0xFFFFFFFFFFFFFFF9 ∷ []) minus_seven kvprintf_runs
