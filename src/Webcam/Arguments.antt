-- ===== src/Webcam/Arguments.antt =====
-- `parse_args` of demos/webcam/gui/src/webcam.c. What `getopt` returns is a list of options with their
-- arguments and the words that are left; a text is the list of its characters. `atoi` and `atof` are
-- arguments, of numbers of whatever kind.
use reconos_v.Base.{ℕ, Option, none, some, List, [], ◌∷◌, ◌≡◌}
use reconos_v.Base.{refl, ◌∙◌, ap, Bool, true, false, if◌then◌else◌, ◌&&◌, not, take}

abbrev pub Text : Type 0
Text = List ℕ

pub data Opt : Type 0 where
  opt_q opt_s opt_h : Opt
  opt_o opt_F opt_f opt_p opt_m opt_i : Text → Opt
  opt_c : Option Text → Opt

pub data Source : Type 0 where
  source_none source_file source_cam : Source

pub record Options (Number : Type 0) : Type 0 where
  pub quiet : Bool
  pub output : Bool
  pub outfilename : Text
  pub fourcc : Text
  pub fps : Number
  pub port : Number
  pub max_frames : Number
  pub source : Source
  pub infilename : Text
  pub camera : Number
  pub ethernet_support : Bool
  pub host : Text

-- `parse_args` returns, ends the program with the usage, or copies from a null pointer.
pub data Parsed (Number : Type 0) : Type 0 where
  parsed : Options Number → Parsed Number
  exits crashes : Parsed Number

module _ {Number : Type 0} (atoi atof : Text → Number) where
  -- The `switch`. `strncpy` of at most n characters is `take n`; -h does nothing.
  unfoldable pub parse_option : Opt → Options Number → Options Number
  parse_option opt_q o = record o { quiet = true }
  parse_option (opt_o t) o = record o { output = true; outfilename = take 252 t }
  parse_option (opt_F t) o = record o { fourcc = take 4 t }
  parse_option (opt_f t) o = record o { fps = atof t }
  parse_option (opt_p t) o = record o { port = atoi t }
  parse_option (opt_m t) o = record o { max_frames = atoi t }
  parse_option (opt_i t) o = record o { source = source_file; infilename = take 256 t }
  parse_option opt_s o = record o { ethernet_support = false }
  parse_option (opt_c none) o = record o { source = source_cam }
  parse_option (opt_c (some t)) o = record o { source = source_cam; camera = atoi t }
  parse_option opt_h o = o

  unfoldable pub parse_options : List Opt → Options Number → Options Number
  parse_options [] o = o
  parse_options (opt ∷ opts) o = parse_options opts (parse_option opt o)

  abbrev pub default_source : Options Number → Options Number
  default_source o = record o { source = default o.source }
    where
      default : Source → Source
      default source_none = source_cam
      default source_file = source_file
      default source_cam = source_cam

  -- Behind the options: too few words would exit, but the test also asks for no ethernet support.
  unfoldable pub parse_host : List Text → Options Number → Parsed Number
  parse_host words o =
      if o.ethernet_support
      then (if too_few words && not o.ethernet_support then exits else copy_host words)
      else parsed (default_source o)
    where
      too_few : List Text → Bool
      too_few [] = true
      too_few (w ∷ ws) = false

      copy_host : List Text → Parsed Number
      copy_host [] = crashes
      copy_host (w ∷ []) = parsed (default_source (record o { host = take 256 w }))
      copy_host (w ∷ v ∷ ws) = exits

  unfoldable pub parse_args : List Opt → List Text → Options Number → Parsed Number
  parse_args opts words o = parse_host words (parse_options opts o)

  -- The options that `-s` is among
  abbrev pub has_s : List Opt → Bool
  has_s [] = false
  has_s (opt_s ∷ opts) = true
  has_s (opt ∷ opts) = has_s opts

  parse_option-ethernet :
      (opt : Opt) (opts : List Opt) (o : Options Number)
      → not (has_s opts) && (parse_option opt o).ethernet_support
        ≡ not (has_s (opt ∷ opts)) && o.ethernet_support
  unfolding parse_option
  parse_option-ethernet opt_s opts o = and-false (not (has_s opts))
    where
      and-false : (b : Bool) → (b && false) ≡ false
      and-false true = refl
      and-false false = refl
  parse_option-ethernet opt_q opts o = refl
  parse_option-ethernet opt_h opts o = refl
  parse_option-ethernet (opt_o t) opts o = refl
  parse_option-ethernet (opt_F t) opts o = refl
  parse_option-ethernet (opt_f t) opts o = refl
  parse_option-ethernet (opt_p t) opts o = refl
  parse_option-ethernet (opt_m t) opts o = refl
  parse_option-ethernet (opt_i t) opts o = refl
  parse_option-ethernet (opt_c none) opts o = refl
  parse_option-ethernet (opt_c (some t)) opts o = refl

  parse_options-ethernet :
      (opts : List Opt) (o : Options Number)
      → (parse_options opts o).ethernet_support ≡ not (has_s opts) && o.ethernet_support
  unfolding parse_options
  parse_options-ethernet [] o = refl
  parse_options-ethernet (opt ∷ opts) o =
      parse_options-ethernet opts (parse_option opt o) ∙ parse_option-ethernet opt opts o

  -- Starting with ethernet support, and without -s, `parse_args` returns with the one word behind the
  -- options as the host, cut to 256 characters, and ends the program when there are more words. When
  -- there is none it does not end the program, but copies from a null pointer.
  pub parse_args_lem :
      (opts : List Opt) (o : Options Number) (w v : Text) (ws : List Text)
      → o.ethernet_support ≡ true
      → has_s opts ≡ false
      → (parse_args opts [] o ≡ crashes)
        × ((o' : Options Number) × (parse_args opts (w ∷ []) o ≡ parsed o')
            × (o'.host ≡ take 256 w))
        × (parse_args opts (w ∷ v ∷ ws) o ≡ exits)
  unfolding parse_args parse_host
  parse_args_lem opts o w v ws on s =
      let kept : (parse_options opts o).ethernet_support ≡ true =
        parse_options-ethernet opts o ∙ ap (λ b. not b && o.ethernet_support) s ∙ on in
      (
        rw kept refl,
        (default_source (record (parse_options opts o) { host = take 256 w }), rw kept refl, refl),
        rw kept refl,
      )
