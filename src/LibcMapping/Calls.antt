-- ===== src/LibcMapping/Calls.antt =====
-- What the loader's own functions of libc_mapping.cc and sloader_dl.cc do when a program calls them.
use sloader.Base.{none, some, List, [], ◌∷◌, String, Str, codes, elem, if◌then◌else◌}
use sloader.LibcMapping.Table.{Place, symbol, variable, lookup}

-- What a call through a binding leads to.
pub data Call : Type 0 where
  -- a function that does nothing and returns no value
  nothing : Call
  -- a function that only returns 0
  zero_result : Call
  -- a function that prints its arguments and exits with status 10
  exits : Call
  -- libc's function or object of that symbol, or a function that hands its arguments on to it
  libc : Str → Call
  -- a function of the loader with a state of its own
  own : Str → Call
  -- the bytes of a pointer variable, which are no code
  data_word : Call

-- The functions that DEFINE_DUMMY_FUN defines.
unfoldable pub dummy_functions : List Str
dummy_functions =
    codes "sloader_ZSTD_trace_compress_begin"
    ∷ codes "sloader_ZSTD_trace_compress_end"
    ∷ codes "sloader_ZSTD_trace_decompress_begin"
    ∷ codes "sloader_ZSTD_trace_decompress_end"
    ∷ codes "sloader__ITM_deregisterTMCloneTable"
    ∷ codes "sloader__ITM_registerTMCloneTable"
    ∷ codes "sloader___asprintf_chk"
    ∷ codes "sloader___assert_fail"
    ∷ codes "sloader___cxa_finalize"
    ∷ codes "sloader___gmon_start__"
    ∷ codes "sloader___gmtime_r"
    ∷ codes "sloader___libc_dn_expand"
    ∷ codes "sloader___libc_ns_makecanon"
    ∷ codes "sloader___libc_ns_samename"
    ∷ codes "sloader___libc_res_nameinquery"
    ∷ codes "sloader___libc_res_queriesmatch"
    ∷ codes "sloader___stack_chk_fail"
    ∷ codes "sloader___xpg_strerror_r"
    ∷ codes "sloader___xstat"
    ∷ codes "sloader_atexit"
    ∷ codes "sloader___cxa_atexit"
    ∷ codes "sloader__nl_msg_cat_cntr"
    ∷ codes "sloader___fxstat"
    ∷ codes "sloader___strtold_nan"
    ∷ codes "sloader___strtod_nan"
    ∷ codes "sloader___strtof128_nan"
    ∷ codes "sloader___strtof_nan"
    ∷ codes "sloader__rtld_global_ro"
    ∷ codes "sloader___cxa_thread_atexit_impl"
    ∷ codes "sloader_delete_module"
    ∷ codes "sloader_init_module"
    ∷ codes "sloader___libc_dynarray_resize"
    ∷ codes "sloader__libc_intl_domainname"
    ∷ codes "sloader___nss_configure_lookup"
    ∷ codes "sloader___progname_full"
    ∷ codes "sloader___progname"
    ∷ codes "sloader___res_context_hostalias"
    ∷ codes "sloader___res_context_query"
    ∷ codes "sloader___res_context_search"
    ∷ codes "sloader___resolv_context_get_override"
    ∷ codes "sloader___resolv_context_get"
    ∷ codes "sloader___resolv_context_put"
    ∷ codes "sloader___res_get_nsaddr"
    ∷ codes "sloader___res_iclose"
    ∷ []

-- The other functions that the loader defines: `wcschr_c`, `wcsrchr_c`, `memrchr_c`,
-- `sloader_register_atfork`, `sloader_atexit_always_success`, `sloader_dlvsym` and `sloader_dladdr`,
-- and those that are modelled elsewhere.
unfoldable pub loader_functions : List (String × Call)
loader_functions =
    ("wcschr_c", libc (codes "wcschr"))
    ∷ ("wcsrchr_c", libc (codes "wcsrchr"))
    ∷ ("memrchr_c", libc (codes "memchr"))
    ∷ ("sloader_register_atfork", libc (codes "pthread_atfork"))
    ∷ ("sloader_atexit_always_success", zero_result)
    ∷ ("sloader_dlvsym", exits)
    ∷ ("sloader_dladdr", libc (codes "dladdr"))
    ∷ ("sloader_dlopen", own (codes "sloader_dlopen"))
    ∷ ("sloader_dlsym", own (codes "sloader_dlsym"))
    ∷ ("sloader_tls_get_addr", own (codes "sloader_tls_get_addr"))
    ∷ ("sloader_libc_start_main", own (codes "sloader_libc_start_main"))
    ∷ []

-- What the source calls by a name; libc's functions and objects stay as the source names them.
unfoldable pub symbol_call : Str → Call
unfolding dummy_functions lookup loader_functions
symbol_call x =
    if elem x dummy_functions
    then nothing
    else elim (lookup loader_functions x) [ some call ↦ call | none ↦ libc x ]

-- The headers of libc give a name of the source a symbol: `basename` is `__xpg_basename` under
-- <libgen.h>. `headers` is that map.
unfoldable pub linked : (headers : Str → Str) → Call → Call
linked headers nothing = nothing
linked headers zero_result = zero_result
linked headers exits = exits
linked headers (libc x) = libc (headers x)
linked headers (own x) = own x
linked headers data_word = data_word

unfoldable pub call_of : (headers : Str → Str) → Place → Call
unfolding symbol_call linked
call_of headers (symbol x) = linked headers (symbol_call (codes x))
call_of headers (variable x) = data_word
