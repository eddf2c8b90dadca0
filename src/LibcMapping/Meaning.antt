-- ===== src/LibcMapping/Meaning.antt =====
-- What each name of `sloader_libc_map` means to the program that calls it.
use sloader.Base.{
  ◌≡◌, ◌∙◌, ap, refl, Bool, true, false, none, some, List, [], ◌∷◌, String, Str, codes, str_eq,
  str_eq→eq, elem, if◌then◌else◌,
}
use sloader.LibcMapping.{Operand, Entry}
use sloader.LibcMapping.Table1.{entries1}
use sloader.LibcMapping.Table2.{entries2}
use sloader.LibcMapping.Table3.{entries3}
use sloader.LibcMapping.Table4.{entries4}
use sloader.LibcMapping.Table5.{entries5}
use sloader.LibcMapping.Table6.{entries6}
use sloader.LibcMapping.Table7.{entries7}
use sloader.LibcMapping.Table8.{entries8}
use sloader.LibcMapping.Table.{Place, symbol, variable, lookup, place, sloader_libc_map}
use sloader.LibcMapping.Binding.{bound_to_variables}
use sloader.LibcMapping.Entries.{all_pass, PartsPass, found-passes}
use sloader.LibcMapping.Calls.{
  Call, nothing, zero_result, exits, libc, own, data_word, symbol_call, linked, call_of,
}

-- The names whose call does nothing, whatever libc's function of that name does.
unfoldable pub ignored : List Str
ignored =
    codes "ZSTD_trace_compress_begin"
    ∷ codes "ZSTD_trace_compress_end"
    ∷ codes "ZSTD_trace_decompress_begin"
    ∷ codes "ZSTD_trace_decompress_end"
    ∷ codes "_ITM_deregisterTMCloneTable"
    ∷ codes "_ITM_registerTMCloneTable"
    ∷ codes "__asprintf_chk"
    ∷ codes "__assert_fail"
    ∷ codes "__cxa_finalize"
    ∷ codes "__cxa_thread_atexit_impl"
    ∷ codes "__fxstat"
    ∷ codes "__gmon_start__"
    ∷ codes "__gmtime_r"
    ∷ codes "__libc_dn_expand"
    ∷ codes "__libc_dynarray_resize"
    ∷ codes "__libc_ns_makecanon"
    ∷ codes "__libc_ns_samename"
    ∷ codes "__libc_res_nameinquery"
    ∷ codes "__libc_res_queriesmatch"
    ∷ codes "__nss_configure_lookup"
    ∷ codes "__progname"
    ∷ codes "__progname_full"
    ∷ codes "__res_context_hostalias"
    ∷ codes "__res_context_query"
    ∷ codes "__res_context_search"
    ∷ codes "__res_get_nsaddr"
    ∷ codes "__res_iclose"
    ∷ codes "__resolv_context_get"
    ∷ codes "__resolv_context_get_override"
    ∷ codes "__resolv_context_put"
    ∷ codes "__stack_chk_fail"
    ∷ codes "__strtod_nan"
    ∷ codes "__strtof128_nan"
    ∷ codes "__strtof_nan"
    ∷ codes "__strtold_nan"
    ∷ codes "__xpg_strerror_r"
    ∷ codes "__xstat"
    ∷ codes "_libc_intl_domainname"
    ∷ codes "_nl_msg_cat_cntr"
    ∷ codes "_rtld_global_ro"
    ∷ codes "atexit"
    ∷ codes "delete_module"
    ∷ codes "init_module"
    ∷ []

-- The names that lead elsewhere than to what the source calls by the same name.
unfoldable pub redirected : List (String × Call)
redirected =
    ("__cxa_atexit", zero_result)
    ∷ ("__libc_start_main", own (codes "sloader_libc_start_main"))
    ∷ ("__register_atfork", libc (codes "pthread_atfork"))
    ∷ ("__tls_get_addr", own (codes "sloader_tls_get_addr"))
    ∷ ("__duplocale", libc (codes "duplocale"))
    ∷ ("__freelocale", libc (codes "freelocale"))
    ∷ ("__isoc99_fscanf", libc (codes "fscanf"))
    ∷ ("__isoc99_scanf", libc (codes "scanf"))
    ∷ ("__isoc99_sscanf", libc (codes "sscanf"))
    ∷ ("__isoc99_vfscanf", libc (codes "vfscanf"))
    ∷ ("__isoc99_vsscanf", libc (codes "vsscanf"))
    ∷ ("__iswctype_l", libc (codes "iswctype_l"))
    ∷ ("__longjmp_chk", libc (codes "longjmp"))
    ∷ ("__memcpy_chk", libc (codes "memcpy"))
    ∷ ("__memmove_chk", libc (codes "memmove"))
    ∷ ("__mempcpy_chk", libc (codes "mempcpy"))
    ∷ ("__memset_chk", libc (codes "memset"))
    ∷ ("__newlocale", libc (codes "newlocale"))
    ∷ ("__nl_langinfo_l", libc (codes "nl_langinfo_l"))
    ∷ ("__stpcpy_chk", libc (codes "stpcpy"))
    ∷ ("__strcat_chk", libc (codes "strcat"))
    ∷ ("__strcoll_l", libc (codes "strcoll_l"))
    ∷ ("__strcpy_chk", libc (codes "strcpy"))
    ∷ ("__strftime_l", libc (codes "strftime_l"))
    ∷ ("__strncat_chk", libc (codes "strncat"))
    ∷ ("__strncpy_chk", libc (codes "strncpy"))
    ∷ ("__strtod_l", libc (codes "strtod_l"))
    ∷ ("__strtof_l", libc (codes "strtof_l"))
    ∷ ("__strxfrm_l", libc (codes "strxfrm_l"))
    ∷ ("__towlower_l", libc (codes "towlower_l"))
    ∷ ("__towupper_l", libc (codes "towupper_l"))
    ∷ ("__uselocale", libc (codes "__gnu_cxx::__uselocale"))
    ∷ ("__wcscoll_l", libc (codes "wcscoll_l"))
    ∷ ("__wcsftime_l", libc (codes "wcsftime_l"))
    ∷ ("__wcsxfrm_l", libc (codes "wcsxfrm_l"))
    ∷ ("__wctype_l", libc (codes "wctype_l"))
    ∷ ("_obstack_free", libc (codes "obstack_free"))
    ∷ ("dlopen", own (codes "sloader_dlopen"))
    ∷ ("dlsym", own (codes "sloader_dlsym"))
    ∷ ("dlvsym", exits)
    ∷ ("iswcntrl", libc (codes "iscntrl"))
    ∷ ("iswprint", libc (codes "isprint"))
    ∷ ("memrchr", libc (codes "memchr"))
    ∷ ("__fxstat64", libc (codes "fstat64"))
    ∷ ("__lxstat64", libc (codes "lstat64"))
    ∷ ("__xstat64", libc (codes "stat64"))
    ∷ ("__fxstatat64", libc (codes "fstatat64"))
    ∷ []

-- What a call of a name leads to: what the source calls by that name, but for those names.
unfoldable named : Str → Call
unfolding ignored redirected lookup
named name =
    if elem name ignored
    then nothing
    else (if elem name bound_to_variables
        then data_word
        else elim (lookup redirected name) [ some call ↦ call | none ↦ libc name ])

-- The same, with the symbols of libc that the headers give to the names of the source.
unfoldable pub meaning : (headers : Str → Str) → Str → Call
unfolding named linked
meaning headers name = linked headers (named name)

-- A place as the source names it.
unfoldable call_named : Place → Call
unfolding symbol_call
call_named (symbol x) = symbol_call (codes x)
call_named (variable x) = data_word

call_of-named :
    (headers : Str → Str) (p : Place) → call_of headers p ≡ linked headers (call_named p)
unfolding call_of call_named linked
call_of-named headers (symbol x) = refl
call_of-named headers (variable x) = refl

unfoldable same_call : Call → Call → Bool
same_call nothing nothing = true
same_call zero_result zero_result = true
same_call exits exits = true
same_call data_word data_word = true
same_call (libc x) (libc y) = str_eq x y
same_call (own x) (own y) = str_eq x y
same_call a b = false

same_call-eq : (a b : Call) → same_call a b ≡ true → a ≡ b
unfolding same_call
same_call-eq nothing nothing h = refl
same_call-eq zero_result zero_result h = refl
same_call-eq exits exits h = refl
same_call-eq data_word data_word h = refl
same_call-eq (libc x) (libc y) h = ap libc (str_eq→eq x y h)
same_call-eq (own x) (own y) h = ap own (str_eq→eq x y h)
same_call-eq a b h = cc

unfoldable means_well : Entry → Bool
unfolding call_named place named same_call
means_well (key, op) = same_call (call_named (place op)) (named (codes key))

entries1-meaning : all_pass means_well entries1 ≡ true
unfolding all_pass means_well entries1
entries1-meaning = refl

entries2-meaning : all_pass means_well entries2 ≡ true
unfolding all_pass means_well entries2
entries2-meaning = refl

entries3-meaning : all_pass means_well entries3 ≡ true
unfolding all_pass means_well entries3
entries3-meaning = refl

entries4-meaning : all_pass means_well entries4 ≡ true
unfolding all_pass means_well entries4
entries4-meaning = refl

entries5-meaning : all_pass means_well entries5 ≡ true
unfolding all_pass means_well entries5
entries5-meaning = refl

entries6-meaning : all_pass means_well entries6 ≡ true
unfolding all_pass means_well entries6
entries6-meaning = refl

entries7-meaning : all_pass means_well entries7 ≡ true
unfolding all_pass means_well entries7
entries7-meaning = refl

entries8-meaning : all_pass means_well entries8 ≡ true
unfolding all_pass means_well entries8
entries8-meaning = refl

parts-meaning : PartsPass means_well
parts-meaning = record {
  part1 = entries1-meaning;
  part2 = entries2-meaning;
  part3 = entries3-meaning;
  part4 = entries4-meaning;
  part5 = entries5-meaning;
  part6 = entries6-meaning;
  part7 = entries7-meaning;
  part8 = entries8-meaning;
}

means_well-eq :
    (key : String) (op : Operand)
    → means_well (key, op) ≡ true
    → call_named (place op) ≡ named (codes key)
unfolding means_well
means_well-eq key op h = same_call-eq (call_named (place op)) (named (codes key)) h

-- A call of a name of `sloader_libc_map` leads to the symbol of libc that the headers give to the same
-- name in the source, whichever map of names to symbols that is, but for the names that are ignored,
-- those that are bound to a pointer variable, and those that are redirected to what the source calls by
-- another name.
pub sloader_libc_map-meaning :
    (headers : Str → Str) (name : Str) (op : Operand)
    → lookup sloader_libc_map name ≡ some op
    → call_of headers (place op) ≡ meaning headers name
unfolding meaning
sloader_libc_map-meaning headers name op found =
    let (key, e, passed) = found-passes means_well name op parts-meaning found in
    call_of-named headers (place op)
    ∙ ap (linked headers) (means_well-eq key op passed ∙ ap named e)
