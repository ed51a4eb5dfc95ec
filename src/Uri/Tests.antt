-- ===== src/Uri/Tests.antt =====
-- URIs with a host.
use fsfuse.Base.{
  ℕ, none, some, ◌≡◌, ◌≢◌, refl, sym, some-injective, fault, arith, Returns, ◌==◌, if◌then◌else◌,
}
use fsfuse.Base.Bytes.{chars}
use fsfuse.Base.Heap.{Heap}
use fsfuse.Uri.{
  Uri, Field, host, port, scheme, userinfo, path, query, fragment, uri_set, uri_delete, uri_get,
  index,
}
use fsfuse.Uri.Owned.{Owned, SetTo, uri_set-SetTo}
use fsfuse.Uri.Delete.{uri_delete_frees}
use fsfuse.Uri.Faults.{uri_get_faults}

abbrev host_only : Uri
host_only host = some 0
host_only _ = none

abbrev host_string : Heap
host_string = record { next = 1; block = λ p. if p == 0 then some (chars "example.org") else none }

host_at : (f : Field) (p : ℕ) → host_only f ≡ some p → (p ≡ 0) × (index f ≡ 2)
unfolding index
host_at scheme p e = cc
host_at userinfo p e = cc
host_at host p e = (sym (some-injective _ _ e), refl)
host_at port p e = cc
host_at path p e = cc
host_at query p e = cc
host_at fragment p e = cc

host_only-Owned : Owned host_only host_string
host_only-Owned = record {
  live = λ f p e. (chars "example.org", rw (host_at f p e).0 refl);
  below = λ f p e. omega (arith, host_at f p e);
  apart = λ f g p e d. omega (arith, host_at f p e, host_at g p d);
}

uri_set-SetTo_example :
    Returns
      (SetTo host (chars "other.org") host_only host_string)
      (uri_set host (chars "other.org") host_only host_string)
uri_set-SetTo_example = uri_set-SetTo host (chars "other.org") host_only host_string host_only-Owned

uri_get_faults_example : uri_get host_only host_string ≡ fault
uri_get_faults_example = uri_get_faults host_only host_string host_only-Owned

uri_delete_frees_example :
    Returns
      (λ h'.
        ((f : Field) (p : ℕ) → host_only f ≡ some p → h'.block p ≡ none)
        × ((q : ℕ) → ((f : Field) → host_only f ≢ some q) → h'.block q ≡ host_string.block q))
      (uri_delete host_only host_string)
uri_delete_frees_example = uri_delete_frees host_only host_string host_only-Owned
