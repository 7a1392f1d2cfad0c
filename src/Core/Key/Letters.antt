-- ===== src/Core/Key/Letters.antt =====
-- src/core/key.hpp, `Key`: no key, errors, letters and digits, as USB HID usages.
use mksync.Prelude.{ℕ}

abbrev pub none : ℕ
none = 0x00

abbrev pub error_overflow : ℕ
error_overflow = 0x01

abbrev pub keyboard_post_fail : ℕ
keyboard_post_fail = 0x02

abbrev pub keyboard_error_undefined : ℕ
keyboard_error_undefined = 0x03

abbrev pub a : ℕ
a = 0x04

abbrev pub b : ℕ
b = 0x05

abbrev pub c : ℕ
c = 0x06

abbrev pub d : ℕ
d = 0x07

abbrev pub e : ℕ
e = 0x08

abbrev pub f : ℕ
f = 0x09

abbrev pub g : ℕ
g = 0x0a

abbrev pub h : ℕ
h = 0x0b

abbrev pub i : ℕ
i = 0x0c

abbrev pub j : ℕ
j = 0x0d

abbrev pub k : ℕ
k = 0x0e

abbrev pub l : ℕ
l = 0x0f

abbrev pub m : ℕ
m = 0x10

abbrev pub n : ℕ
n = 0x11

abbrev pub o : ℕ
o = 0x12

abbrev pub p : ℕ
p = 0x13

abbrev pub q : ℕ
q = 0x14

abbrev pub r : ℕ
r = 0x15

abbrev pub s : ℕ
s = 0x16

abbrev pub t : ℕ
t = 0x17

abbrev pub u : ℕ
u = 0x18

abbrev pub v : ℕ
v = 0x19

abbrev pub w : ℕ
w = 0x1a

abbrev pub x : ℕ
x = 0x1b

abbrev pub y : ℕ
y = 0x1c

abbrev pub z : ℕ
z = 0x1d

abbrev pub digit1 : ℕ
digit1 = 0x1e

abbrev pub digit2 : ℕ
digit2 = 0x1f

abbrev pub digit3 : ℕ
digit3 = 0x20

abbrev pub digit4 : ℕ
digit4 = 0x21

abbrev pub digit5 : ℕ
digit5 = 0x22

abbrev pub digit6 : ℕ
digit6 = 0x23

abbrev pub digit7 : ℕ
digit7 = 0x24

abbrev pub digit8 : ℕ
digit8 = 0x25

abbrev pub digit9 : ℕ
digit9 = 0x26

abbrev pub digit0 : ℕ
digit0 = 0x27
