-- ===== src/Bitio/Reader/Reads.antt =====
-- What the clients of a `Reader` rely on: `Reads m bs a` says that `m` turns the bits `bs`, at
-- the front of whatever follows, into `a`. It composes along `do`, as the bits do.
use go_flac.Prelude.{ℕ, ◌^◌, ◌≤◌, ◌<◌, ◌≡◌, refl, ap, ◌∙◌, List, [], ◌++◌, append_assoc}
use go_flac.Bitstream.{to_bits, of_bits, unary_bits, length-to_bits, of_bits-to_bits}
use go_flac.Bitio.Reader.{Reader, Run, ok, M, ◌>>=◌, and_then, pure}
use go_flac.Bitio.Reader.Read.{read_bits, read_unary}
use go_flac.Bitio.Reader.Pending.{pending, IsValid}
use go_flac.Bitio.Reader.Serve.{read_bits_enough}
use go_flac.Bitio.Reader.Unary.{read_unary_lem}
use native.Mathlib.Nat.{mod-eq_of_lt}

abbrev pub Reads {ℓ} : {A : Type ℓ} → M A → List ℕ → A → Type ℓ
Reads m bs a =
    (b : Reader) (rest : List ℕ)
    → IsValid b
    → pending b ≡ bs ++ rest
    → (b' : Reader) × (m b ≡ ok a b') × IsValid b' × (pending b' ≡ rest)

pub Reads-pure {ℓ} : {A : Type ℓ} (a : A) → Reads (pure a) [] a
Reads-pure a b rest v front = (b, refl, v, front)

pub Reads-bind {ℓ κ} :
    {A : Type ℓ} {B : Type κ} (m : M A) (f : A → M B) (bs cs : List ℕ) (a : A) (x : B)
    → Reads m bs a
    → Reads (f a) cs x
    → Reads (m >>= f) (bs ++ cs) x
Reads-bind m f bs cs a x p q b rest v front =
    let (b', run, v', front') = p b (cs ++ rest) v (front ∙ append_assoc bs cs rest) in
    let (b'', run', v'', front'') = q b' rest v' front' in
    (b'', ap (λ (r : Run _). and_then r f) run ∙ run', v'', front'')

pub Reads-read_bits : (n v : ℕ) → n ≤ 57 → v < 2 ^ n → Reads (read_bits n) (to_bits n v) v
Reads-read_bits n v h lt b rest valid front =
    let (b', run, t, same) =
      read_bits_enough n b (to_bits n v) rest h valid front (length-to_bits n v) in
    let value : of_bits (to_bits n v) ≡ v = of_bits-to_bits n v ∙ mod-eq_of_lt lt in
    (b', run ∙ ap (λ (k : ℕ). ok k b') value, t.valid, same)

pub Reads-read_unary : (q : ℕ) → Reads read_unary (unary_bits q) q
Reads-read_unary q b rest v front =
    let (b', run, t, same) = read_unary_lem q b rest v front in (b', run, t.valid, same)
