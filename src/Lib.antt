-- ===== src/Lib.antt =====
-- The modules of an operating system in C that talk over sockets: the kernel plans processes, the
-- CPU runs their instructions, the memory holds their pages, the interfaces do input and output.
--
-- Kernel (kernel/src). Kernel.Estado is the state: the global variables of planificacion.c,
-- recursos.c and espera.c in one record, a queue as a list with its head first, a semaphore as its
-- value. A handler is a function to `Resultado`: it goes on, it waits on a semaphore at 0, or it
-- reads through a bad pointer. Kernel.Colas has the queues, Kernel.Recursos and its Registro
-- recursos.c's table of resources and the ledger of each process, Kernel.Fin how a process leaves
-- the CPU and ends, Kernel.Syscalls WAIT and SIGNAL, Kernel.Planificacion admission, the degree of
-- multiprogramming, FIFO, RR and VRR (one step of each loop, from where its thread waits to where it
-- waits next, so that the unit of sem_cont_ready that it has taken is held while the CPU is not free), Kernel.Espera the packets of the memory and the CPU. Kernel.Pasos makes each of them
-- an event, and any sequence of events a run. Each other handler runs with its locks held;
-- the events come in any order, and the loop that lowers the degree is an event for each turn. Kernel.Listos and Kernel.Pasos.Seguro are about the count of the ready
-- processes, Kernel.Libro, Kernel.Conserva and Kernel.Balance about the instances of resources,
-- Kernel.Semaforo about who waits and who is woken.
--
-- Kernel.Interfaces is manejoInterfaces.c, with the packets of an interface that espera.c dispatches
-- (`atender_cliente`); Kernel.Interfaces.Llamadas has the CPU's packets that ask for one. Its
-- `Sistema` is the kernel, the dictionary of interfaces, the dictionary of the payloads in wait
-- and what was sent to the interfaces. Cola describes an interface by one queue, Esperas, Invariante
-- and Bajas keep the payloads, Listos the count of ready processes, Pasos joins the events of the
-- kernel and of the interfaces, Turnos is about the order in which processes get an interface.
--
-- CPU (cpu/src). Cpu.Tlb is TLB.c, Cpu.Mmu is mmu.c, where the answer of the memory to a
-- question for a frame is an argument; Cpu.Registros is the part of instrucciones.c that computes,
-- Cpu.Instrucciones the part that asks the memory or the kernel, with conexiones.c, and Ciclo below
-- it cicloInstruccion.c and the loop of main.c; Efecto and Turno are about one instruction, Envios and
-- Vueltas about a run. What the CPU sends are the packets of Kernel.Espera and
-- Kernel.Interfaces.Llamadas. The loop is run for a number of turns, since a program need not end.
-- The comparison of texts that ignores case belongs to so-commons: it is an argument, and no
-- property needs a law of it.
--
-- Memory (memoria/src/memoria-utils). Memoria.Marcos is the search and the count of free frames
-- over so-commons' bit array, an interface with what its operations do to a bit;
-- Memoria.Procesos is procesos.c with the page tables; Memoria.Reparto is about RESIZE, Memoria.Carga
-- about the instructions, which are read from the bytes of a file. Memoria.Bytes is the reading and the writing of memoria.c: the bytes are a
-- function of the address, a turn is one page, and as many turns as bytes are enough, since a turn
-- moves one byte at least. Memoria.Peticiones is conexiones.c, a request and its answer, and
-- Traduccion below it puts the CPU's translation before a request. The order in which so-commons
-- lists a dictionary is an argument.
--
-- Payloads (utils/src/utils/serializacion.c). Utils.Serializacion has the bytes of each kind of
-- field and their readers, Utils.Serializacion.Memoria and Utils.Serializacion.Llamadas each payload,
-- and the Vuelta below each of them the round trips. A t_PCB is copied as it lies in the memory of the
-- program, so it is the bytes that it takes, and their number is an argument.
--
-- Interfaces (entradasalida/src). Entradasalida is the state of a file system: the bitmap over
-- so-commons' bit array, the dictionary of the metadata, the names in the directory and the bytes of
-- the blocks. Entradasalida.Bitmap is bitmap.c, Diccionario diccionario.c, Operaciones
-- operacionesFS.c, Compactacion bloques.c, Hilos the threads of hilos.c, one packet of the kernel each
-- with what is sent for it. Disco says when the bitmap and the metadata agree, with what each
-- operation does to that; Reparto and its Suma are about who has each block and how many there are,
-- the files below Compactacion about its loops, from the files of a stretch (Archivos, Tramo) to the
-- whole (Contrato); Truncado, Contenido and Creado are about the operations, Espacio about the free
-- blocks that they count, Reinicio about a start on a disk that has files. The loop over the set bits
-- gets one turn more than there are blocks, and so does the loop of the compaction, since each turn
-- goes on by one bit at least; a truncation is called with the right to call itself once, which is
-- enough after a compaction. The order of the elements of the dictionary is an argument, of which the
-- properties use that each element is listed once; memcpy within the blocks is an argument, since
-- the compaction calls it with regions that overlap, and no property needs a law of it.
--
-- Utils. Utils.Pcb has the process control block and the registers. Utils.Paquetes is the packets of
-- client.c, server.c and envios.c, over the operations of a socket, which are arguments: Formato is
-- about their bytes, Conexion about what a connection that works gives, Cola about a sequence of
-- packets, Valores about the values of one. The loop over the values gets one turn more than the
-- buffer has bytes, and each turn takes 4 at least. The handlers above take the payloads of these
-- packets as values. Common has the shared tests, lists, integers and dictionaries.
--
-- An `int` that the program keeps in range is an integer; a register is a natural number, with
-- the conversions of C written out. Every other loop is recursion on a list or on the number of its
-- turns.
--
-- Not modelled: the opening of connections, threads, configuration and logs; the console and buscar_pcb, which takes
-- locks that it holds already; a truncation to a negative size; the mapping of files to memory in entradasalida.
pub mod Common
pub mod Utils
pub mod Kernel
pub mod Cpu
pub mod Entradasalida
pub mod Memoria
