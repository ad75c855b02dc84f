-- ===== src/Spatial/Fuel.antt =====
-- The WKB parser of plugin/tidesdb_spatial.cc never needs more fuel than it has bytes.
use tidesdb_mysql.Base.{
  ℕ, zero, suc, ◌≤◌, ◌<◌, ◌-◌, ◌≡◌, ◌≢◌, ◌∙◌, refl, ap, ◌&&◌, List, if◌then◌else◌, ltb, ◌==◌, arith,
  if_cases, length, drop, take, length-drop,
}
use tidesdb_mysql.Fts.{of_le}
use tidesdb_mysql.Spatial.{Mbr}
use tidesdb_mysql.Spatial.Wkb.{
  Outcome, out_of_fuel, rejected, parsed, Reader, next, repeat, wkb_read_point, read_counted,
  wkb_read_point_sequence, parse_body, wkb_parse_geometry,
}

-- A reader that was given `n` bytes ends, and leaves no more than these.
abbrev pub Within : ℕ → Outcome → Type 0
Within n out_of_fuel = ⊥
Within n rejected = Unit {0}
Within n (parsed x) = length x.0 ≤ n

-- So it does on inputs of at most `n` bytes.
abbrev Reads : ℕ → Reader → Type 0
Reads n read = (p : List ℕ) (m : Mbr) → length p ≤ n → Within (length p) (read p m)

abbrev Agree : ℕ → Reader → Reader → Type 0
Agree n a b = (p : List ℕ) (m : Mbr) → length p ≤ n → a p m ≡ b p m

Within-mono : (n k : ℕ) (o : Outcome) → n ≤ k → Within n o → Within k o
Within-mono n k out_of_fuel l w = w
Within-mono n k rejected l w = tt
Within-mono n k (parsed x) l w = omega arith

next-Within :
    (rest : Reader) (n k : ℕ) (o : Outcome)
    → n ≤ k
    → Reads k rest
    → Within n o
    → Within n (next rest o)
unfolding next
next-Within rest n k out_of_fuel l reads w = w
next-Within rest n k rejected l reads w = tt
next-Within rest n k (parsed x) l reads w =
    Within-mono (length x.0) n (rest x.0 x.1) w (reads x.0 x.1 (omega arith))

repeat-Reads : (n : ℕ) (read : Reader) (count : ℕ) → Reads n read → Reads n (repeat read count)
unfolding repeat
repeat-Reads n read zero reads p m l = omega arith
repeat-Reads n read (suc count) reads p m l =
    next-Within (repeat read count) (length p) n (read p m) l (repeat-Reads n read count reads)
      (reads p m l)

wkb_read_point-Reads : (n : ℕ) → Reads n wkb_read_point
unfolding wkb_read_point
wkb_read_point-Reads n p m l =
    if_cases (Within (length p)) (ltb (length p) 16) _ _ (λ short. tt)
      (λ long. omega (arith, length-drop 16 p))

read_counted-Reads :
    (n limit : ℕ) (read : Reader) → Reads n read → Reads n (read_counted limit read)
unfolding read_counted
read_counted-Reads n limit read reads p m l =
    let shorter : length (drop 4 p) ≤ length p = omega (arith, length-drop 4 p) in
    if_cases (Within (length p)) (ltb (length p) 4) _ _ (λ short. tt)
      (λ long.
        if_cases (Within (length p)) (ltb limit (of_le (take 4 p))) _ _ (λ many. tt)
          (λ few.
            Within-mono (length (drop 4 p)) (length p) _ shorter
              (repeat-Reads n read (of_le (take 4 p)) reads (drop 4 p) m (omega arith))))

parse_body-Reads :
    (n : ℕ) (nested : Reader) (kind : ℕ) → Reads n nested → Reads n (parse_body nested kind)
unfolding parse_body wkb_read_point_sequence
parse_body-Reads n nested kind reads p m l =
    let P = Within (length p) in
    let points = read_counted-Reads n 1000000 wkb_read_point (wkb_read_point-Reads n) in
    if_cases P (kind == 1) _ _ (λ a. wkb_read_point-Reads n p m l)
      (λ b.
        if_cases P (kind == 2) _ _ (λ a. points p m l)
          (λ c.
            if_cases P (kind == 3) _ _
              (λ a. read_counted-Reads n 10000 wkb_read_point_sequence points p m l)
              (λ d.
                if_cases P (ltb 3 kind && ltb kind 8) _ _
                  (λ a. read_counted-Reads n 100000 nested reads p m l) (λ z. tt))))

wkb_parse_geometry-Reads : (n fuel : ℕ) → n < fuel → Reads n (wkb_parse_geometry fuel)
unfolding wkb_parse_geometry
wkb_parse_geometry-Reads n zero h p m l = absurd (omega arith)
wkb_parse_geometry-Reads n (suc fuel) h p m l =
    if_cases (Within (length p)) (ltb (length p) 5) _ _ (λ short. tt)
      (λ long.
        let left : length (drop 5 p) ≡ length p - 5 = length-drop 5 p in
        let less : length (drop 5 p) < fuel = ground arith in
        Within-mono (length (drop 5 p)) (length p) _ (omega arith) (
          parse_body-Reads (length (drop 5 p)) (wkb_parse_geometry fuel) (of_le (take 4 (drop 1 p)))
            (wkb_parse_geometry-Reads (length (drop 5 p)) fuel less) (drop 5 p) m (omega arith)))

-- Readers that agree on short inputs still agree where they are used on what another one left.
next-Agree : (n : ℕ) (a b : Reader) (o : Outcome) → Agree n a b → Within n o → next a o ≡ next b o
unfolding next
next-Agree n a b out_of_fuel agree w = refl
next-Agree n a b rejected agree w = refl
next-Agree n a b (parsed x) agree w = agree x.0 x.1 w

repeat-Agree :
    (n : ℕ) (a b : Reader) (count : ℕ)
    → Agree n a b
    → Reads n b
    → Agree n (repeat a count) (repeat b count)
unfolding repeat
repeat-Agree n a b zero agree reads p m l = refl
repeat-Agree n a b (suc count) agree reads p m l =
    ap (next (repeat a count)) (agree p m l)
    ∙ next-Agree n (repeat a count) (repeat b count) (b p m) (repeat-Agree n a b count agree reads)
        (Within-mono (length p) n (b p m) l (reads p m l))

read_counted-Agree :
    (n limit : ℕ) (a b : Reader)
    → Agree n a b
    → Reads n b
    → Agree n (read_counted limit a) (read_counted limit b)
unfolding read_counted
read_counted-Agree n limit a b agree reads p m l =
    ground (arith, length-drop 4 p, repeat-Agree n a b (of_le (take 4 p)) agree reads (drop 4 p) m)

parse_body-Agree :
    (n kind : ℕ) (a b : Reader)
    → Agree n a b
    → Reads n b
    → Agree n (parse_body a kind) (parse_body b kind)
unfolding parse_body
parse_body-Agree n kind a b agree reads p m l =
    ground (arith, read_counted-Agree n 100000 a b agree reads p m)

parses_agree :
    (f g : ℕ) (p : List ℕ) (m : Mbr)
    → length p < f
    → length p < g
    → wkb_parse_geometry f p m ≡ wkb_parse_geometry g p m
unfolding wkb_parse_geometry
parses_agree zero g p m lf lg = absurd (omega arith)
parses_agree (suc f) zero p m lf lg = absurd (omega arith)
parses_agree (suc f) (suc g) p m lf lg =
    if_cases
      (λ (o : Outcome). o ≡ (
        if ltb (length p) 5
        then rejected
        else parse_body (wkb_parse_geometry g) (of_le (take 4 (drop 1 p))) (drop 5 p) m))
      (ltb (length p) 5) _ _ (λ short. rw short refl)
      (λ long.
        let left : length (drop 5 p) ≡ length p - 5 = length-drop 5 p in
        let less : length (drop 5 p) < f = ground arith in
        let less' : length (drop 5 p) < g = ground arith in
        rw long (
          parse_body-Agree (length (drop 5 p)) (of_le (take 4 (drop 1 p))) (wkb_parse_geometry f)
            (wkb_parse_geometry g) (λ q k l. parses_agree f g q k (omega arith) (omega arith))
            (wkb_parse_geometry-Reads (length (drop 5 p)) g less') (drop 5 p) m (omega arith)))

Within-ends : (n : ℕ) (o : Outcome) → Within n o → o ≢ out_of_fuel
Within-ends n out_of_fuel w e = w
Within-ends n rejected w e = absurd (cc)
Within-ends n (parsed x) w e = absurd (cc)

-- With fuel above the number of the bytes the parser ends before its fuel does, leaves no more bytes
-- than it was given, and does the same whatever the fuel is.
pub wkb_parse_geometry_ends :
    (f g : ℕ) (p : List ℕ) (m : Mbr)
    → length p < f
    → length p < g
    → (wkb_parse_geometry f p m ≢ out_of_fuel)
      × Within (length p) (wkb_parse_geometry f p m)
      × (wkb_parse_geometry f p m ≡ wkb_parse_geometry g p m)
wkb_parse_geometry_ends f g p m lf lg =
    let w = wkb_parse_geometry-Reads (length p) f lf p m (omega arith) in
    (Within-ends (length p) (wkb_parse_geometry f p m) w, w, parses_agree f g p m lf lg)
