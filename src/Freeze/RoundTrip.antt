-- ===== src/Freeze/RoundTrip.antt =====
-- What `write_manifest` of src/toolbench/freeze.py writes, `read_manifest` reads.
use tool_benchmarks.Base.{◌≡◌, refl, String, Bool, Option, none, some, List, [], ◌∷◌, map, length}
use tool_benchmarks.Base.{◌||◌, string_eq}
use tool_benchmarks.Base.Dict.{Dict}
use tool_benchmarks.Base.Int.{ℤ, pos}
use tool_benchmarks.Json.{Json, obj, as_str, get, has}
use tool_benchmarks.Sources.{AgentCensus, SessionRef}
use tool_benchmarks.Freeze.{
  manifest_version, ref_to_dict, totals_to_dict, census_to_dict, json_of_option, ref_items,
  manifest_payload,
}
use tool_benchmarks.Freeze.Reader.{
  reads, py_int, under_subagents, is_subagent_from_manifest, py_str, ref_from_dict, refs_from_items,
  totals_from_fields, census_from_dict, read_manifest,
}

-- A reference under a directory `subagents` is a subagent's, whatever its flag says.
abbrev pub healed : SessionRef → SessionRef
healed r = record r { is_subagent = r.is_subagent || under_subagents r.path }

-- The filter of the census is kept with a census only.
abbrev pub with_census : Option AgentCensus → Option Bool → Option Bool
with_census none includes = none
with_census (some c) includes = includes

as_str-of_option : (o : Option String) → as_str (json_of_option o) ≡ o
as_str-of_option none = refl
as_str-of_option (some s) = refl

module _ (repr : Json → String) where
  ref_from_dict-to : (r : SessionRef) → ref_from_dict repr (obj (ref_to_dict r)) ≡ reads (healed r)
  unfolding ref_from_dict ref_to_dict get has string_eq is_subagent_from_manifest py_str
  ref_from_dict-to r = go r.path
    where
      go :
          (path : Option String)
          → ref_from_dict repr (obj (ref_to_dict (record r { path = path })))
            ≡ reads (healed (record r { path = path }))
      go none = refl
      go (some p) = refl

  refs_from_items-items :
      (refs : List SessionRef) → refs_from_items repr (ref_items refs) ≡ reads (map healed refs)
  unfolding refs_from_items ref_items
  refs_from_items-items [] = refl
  refs_from_items-items (r ∷ refs) = rw (ref_from_dict-to r, refs_from_items-items refs)

  totals_from_fields-to :
      (totals : Dict String ℤ) → totals_from_fields repr (totals_to_dict totals) ≡ reads totals
  unfolding totals_from_fields totals_to_dict py_int
  totals_from_fields-to [] = refl
  totals_from_fields-to ((agent, n) ∷ totals) = rw (totals_from_fields-to totals)

  census_from_dict-to : (c : AgentCensus) → census_from_dict repr (census_to_dict c) ≡ reads c
  unfolding census_from_dict census_to_dict get string_eq py_int
  census_from_dict-to c = rw (totals_from_fields-to c.totals, as_str-of_option c.unavailable_reason)

  -- A manifest that was written reads back: its version, fingerprint, count, census and census
  -- filter as they were given, the filter only with a census, and its references in their order, each
  -- as it was but that one whose path lies under a directory `subagents` is a subagent's.
  pub read_manifest-payload :
      (refs : List SessionRef) (fingerprint : String) (census : Option AgentCensus)
      (includes : Option Bool)
      → read_manifest repr (obj (manifest_payload refs fingerprint census includes))
        ≡ reads (record {
          version = manifest_version;
          fingerprint = fingerprint;
          count = pos (length refs);
          refs = map healed refs;
          census = census;
          census_includes_subagents = with_census census includes;
        })
  unfolding read_manifest manifest_payload get has string_eq py_int py_str
  read_manifest-payload refs fingerprint none includes = rw (refs_from_items-items refs)
  read_manifest-payload refs fingerprint (some c) none =
      rw (refs_from_items-items refs, census_from_dict-to c)
  read_manifest-payload refs fingerprint (some c) (some b) =
      rw (refs_from_items-items refs, census_from_dict-to c)
