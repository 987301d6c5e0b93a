-- ===== src/Ini/RoundTrip.antt =====
-- lib_ini.c: `ChargerFichierIni` on the text of a configuration.
use mathlib.Core.List.{append_assoc, append-nil}
use multicat_supervisor.Base.{
  ℕ, zero, suc, ◌+◌, ◌*◌, ◌≤◌, ◌≡◌, refl, ap, ◌∙◌, none, some, List, [], ◌∷◌, ◌++◌, arith, length,
  length-append, All, Bytes,
}
use multicat_supervisor.Io.{ok}
use multicat_supervisor.Ini.{success, size_max, load_lines, charger_fichier_ini}
use multicat_supervisor.Ini.Config.{
  Block, Config, blocks, IsTitled, titled, untitled, Shaped, cost, context_of,
}
use multicat_supervisor.Ini.Growth.{
  add_param, add_section, cost-append, cost-add_param, cost-add_section,
}
use multicat_supervisor.Ini.Text.{
  line_of, write_params, write_blocks, IsParamText, IsBlockText, load_line,
  extraire_params_valeurs-param, extraire_params_valeurs-title,
}

abbrev with_params : List (Bytes × Bytes) → Config → Config
with_params ps cfg = record cfg { last = record cfg.last { params = cfg.last.params ++ ps } }

line_fuel :
    (line rest : Bytes) (fuel : ℕ)
    → length (line ++ b'\n' ∷ rest) ≤ fuel
    → (n : ℕ) × (fuel ≡ suc n) × (length rest ≤ n)
line_fuel line rest zero h = absurd (omega (arith, length-append line (b'\n' ∷ rest)))
line_fuel line rest (suc n) h = (n, refl, omega (arith, length-append line (b'\n' ∷ rest)))

-- The lines of parameters, one after another.
load_params :
    (ps : List (Bytes × Bytes)) (rest : Bytes) (fuel : ℕ) (cfg : Config)
    → All IsParamText ps
    → cost (blocks cfg) + 3 * length ps ≤ size_max
    → length (write_params ps rest) ≤ fuel
    → (n : ℕ) × (length rest ≤ n)
      × (load_lines fuel (context_of cfg) (write_params ps rest)
          ≡ load_lines n (context_of (with_params ps cfg)) rest)
load_params [] rest fuel cfg h l f = (fuel, f, rw append-nil refl)
load_params (p ∷ ps) rest fuel cfg (h, hs) l f =
    let (n, e, g) = line_fuel (line_of p) (write_params ps rest) fuel f in
    let (m, g', e') =
      load_params ps rest n (add_param p.0 p.1 cfg) hs (omega (arith, cost-add_param p.0 p.1 cfg))
        g in
    (
      m,
      g',
      rw e (
          load_line n _ _ (line_of p) (write_params ps rest) h.line
            (extraire_params_valeurs-param cfg p h (omega arith))
          ∙ e'
          ∙ rw (append_assoc cfg.last.params (p ∷ []) ps) refl),
    )

abbrev extend : Config → List Block → Config
extend cfg [] = cfg
extend cfg (b ∷ bs) = extend (record { closed = blocks cfg; last = b }) bs

extend_lem :
    (cfg : Config) (bs : List Block) (b : Block)
    → extend cfg (bs ++ b ∷ []) ≡ record { closed = blocks cfg ++ bs; last = b }
extend_lem cfg [] b = rw append-nil refl
extend_lem cfg (x ∷ bs) b =
    extend_lem (record { closed = blocks cfg; last = x }) bs b
    ∙ rw (append_assoc (blocks cfg) (x ∷ []) bs) refl

load_blocks :
    (bs : List Block) (fuel : ℕ) (cfg : Config)
    → All IsTitled bs
    → All IsBlockText bs
    → cost (blocks cfg) + cost bs ≤ size_max
    → length (write_blocks bs) ≤ fuel
    → load_lines fuel (context_of cfg) (write_blocks bs) ≡ ok (context_of (extend cfg bs))
load_blocks [] fuel cfg t h l f = unfold load_lines in refl
load_blocks (b ∷ bs) fuel cfg (titled {title} {params}, t) (h, hs) l f =
    let text : Bytes = write_params params (write_blocks bs) in
    let (n, e, g) = line_fuel (b'[' ∷ (title ++ b']' ∷ [])) text fuel f in
    let (m, g', e') =
      load_params params (write_blocks bs) n (add_section title cfg) h.1
        (omega (arith, cost-add_section title cfg)) g in
    rw e (
      load_line n _ _ (b'[' ∷ (title ++ b']' ∷ [])) text h.0.0
        (extraire_params_valeurs-title cfg title h.0 (omega arith))
      ∙ e'
      ∙ load_blocks bs m _ t hs (omega (arith, cost-append (blocks cfg) (b ∷ []))) g')

-- The unnamed section is there from the start.
load_whole :
    (b : Block) (bs : List Block)
    → Shaped (b ∷ bs)
    → All IsBlockText (b ∷ bs)
    → cost (b ∷ bs) ≤ size_max
    → charger_fichier_ini (some (write_blocks (b ∷ bs)))
      ≡ ok (success, some (context_of (extend (record { closed = []; last = b }) bs)))
unfolding charger_fichier_ini
load_whole b bs (untitled {params}, t) (h, hs) l =
    let (m, g, e) =
      load_params params (write_blocks bs) (length (write_params params (write_blocks bs)))
        (record { closed = []; last = record { title = none; params = [] } }) h.1 (omega arith)
        (omega arith) in
    rw (e, load_blocks bs m (record { closed = []; last = b }) t hs (omega arith) g) refl

load_closed :
    (bs : List Block) (b : Block)
    → Shaped (bs ++ b ∷ [])
    → All IsBlockText (bs ++ b ∷ [])
    → cost (bs ++ b ∷ []) ≤ size_max
    → charger_fichier_ini (some (write_blocks (bs ++ b ∷ [])))
      ≡ ok (success, some (context_of (record { closed = bs; last = b })))
load_closed [] b t h l = load_whole b [] t h l
load_closed (x ∷ bs) b t h l =
    load_whole x (bs ++ b ∷ []) t h l
    ∙ ap (λ (c : Config). ok (success, some (context_of c)))
        (extend_lem (record { closed = []; last = x }) bs b)

-- The text of a configuration is loaded as it: sections, parameters, their order, counters and
-- allocations. The configuration has one section without a title, in front; no line is longer
-- than the buffer or holds a NUL or a line end; titles lack = and ], keys lack = and begin with
-- neither a space nor #, values do not end in a space; and the allocations fit in the pool.
pub charger_fichier_ini-write_blocks :
    (cfg : Config)
    → Shaped (blocks cfg)
    → All IsBlockText (blocks cfg)
    → cost (blocks cfg) ≤ size_max
    → charger_fichier_ini (some (write_blocks (blocks cfg))) ≡ ok (success, some (context_of cfg))
charger_fichier_ini-write_blocks cfg = load_closed cfg.closed cfg.last
